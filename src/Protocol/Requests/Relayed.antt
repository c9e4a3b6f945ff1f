-- ===== src/Protocol/Requests/Relayed.antt =====
-- internal/protocol/protocol.go: a request that was read is sent on as it was sent first.
use remote_adapter.Prelude.{◌<◌, ◌^◌, ◌≡◌, ◌∙◌, refl, ap, arith}
use remote_adapter.Prelude.Int.{pos, Fits}
use remote_adapter.Protocol.Types.{
  Op, op_stat, op_open, op_pread, op_write_file, op_close, op_readdir, op_pwrite, op_create,
  op_unlink, op_mkdir, op_rename, op_setattr, op_server_info, op_other, Request,
}
use remote_adapter.Protocol.Requests.{request_fields, frame_fields, write_request}
use remote_adapter.Protocol.Requests.Shape.{sent, InRange}

pub sent-op : (o : Op) (r : Request) → (sent o r).op ≡ o
unfolding sent
sent-op op_stat r = refl
sent-op op_open r = refl
sent-op op_pread r = refl
sent-op op_write_file r = refl
sent-op op_close r = refl
sent-op op_readdir r = refl
sent-op op_pwrite r = refl
sent-op op_create r = refl
sent-op op_unlink r = refl
sent-op op_mkdir r = refl
sent-op op_rename r = refl
sent-op op_setattr r = refl
sent-op op_server_info r = refl
sent-op (op_other n) r = refl

pub sent-sent : (o : Op) (r : Request) → sent o (sent o r) ≡ sent o r
unfolding sent
sent-sent op_stat r = refl
sent-sent op_open r = refl
sent-sent op_pread r = refl
sent-sent op_write_file r = refl
sent-sent op_close r = refl
sent-sent op_readdir r = refl
sent-sent op_pwrite r = refl
sent-sent op_create r = refl
sent-sent op_unlink r = refl
sent-sent op_mkdir r = refl
sent-sent op_rename r = refl
sent-sent op_setattr r = refl
sent-sent op_server_info r = refl
sent-sent (op_other n) r = refl

request_fields-sent : (o : Op) (r : Request) → request_fields o (sent o r) ≡ request_fields o r
unfolding sent request_fields
request_fields-sent op_stat r = refl
request_fields-sent op_open r = refl
request_fields-sent op_pread r = refl
request_fields-sent op_write_file r = refl
request_fields-sent op_close r = refl
request_fields-sent op_readdir r = refl
request_fields-sent op_pwrite r = refl
request_fields-sent op_create r = refl
request_fields-sent op_unlink r = refl
request_fields-sent op_mkdir r = refl
request_fields-sent op_rename r = refl
request_fields-sent op_setattr r = refl
request_fields-sent op_server_info r = refl
request_fields-sent (op_other n) r = refl

pub write_request-sent : (r : Request) → write_request (sent r.op r) ≡ write_request r
unfolding write_request
write_request-sent r =
    ap (λ o. frame_fields o (request_fields o (sent r.op r))) (sent-op r.op r)
    ∙ ap (frame_fields r.op) (request_fields-sent r.op r)

abbrev pub zero_fits : Fits (2 ^ 63) (pos 0)
zero_fits = omega arith

abbrev pub zero_word : 0 < 2 ^ 32
zero_word = omega arith

abbrev pub zero_handle : 0 < 2 ^ 64
zero_handle = omega arith

pub request_in :
    {r : Request}
    → r.flags < 2 ^ 32
    → r.mode < 2 ^ 32
    → r.mask < 2 ^ 32
    → r.handle < 2 ^ 64
    → Fits (2 ^ 63) r.off
    → r.len < 2 ^ 32
    → Fits (2 ^ 63) r.size
    → Fits (2 ^ 63) r.atime
    → Fits (2 ^ 63) r.mtime
    → InRange r
request_in a b c d e f g i j = record {
  flags = a;
  mode = b;
  mask = c;
  handle = d;
  off = e;
  len = f;
  size = g;
  atime = i;
  mtime = j;
}

-- A request as its op sends it has no number out of range where the request has none.
pub sent-InRange : (o : Op) (r : Request) → InRange r → InRange (sent o r)
unfolding sent
sent-InRange op_stat r h =
    request_in zero_word zero_word zero_word zero_handle zero_fits zero_word zero_fits zero_fits
      zero_fits
sent-InRange op_open r h =
    request_in h.flags zero_word zero_word zero_handle zero_fits zero_word zero_fits zero_fits
      zero_fits
sent-InRange op_pread r h =
    request_in zero_word zero_word zero_word h.handle h.off h.len zero_fits zero_fits zero_fits
sent-InRange op_write_file r h =
    request_in zero_word zero_word zero_word zero_handle zero_fits zero_word zero_fits zero_fits
      zero_fits
sent-InRange op_close r h =
    request_in zero_word zero_word zero_word h.handle zero_fits zero_word zero_fits zero_fits
      zero_fits
sent-InRange op_readdir r h =
    request_in zero_word zero_word zero_word zero_handle zero_fits zero_word zero_fits zero_fits
      zero_fits
sent-InRange op_pwrite r h =
    request_in zero_word zero_word zero_word h.handle h.off zero_word zero_fits zero_fits zero_fits
sent-InRange op_create r h =
    request_in h.flags h.mode zero_word zero_handle zero_fits zero_word zero_fits zero_fits
      zero_fits
sent-InRange op_unlink r h =
    request_in h.flags zero_word zero_word zero_handle zero_fits zero_word zero_fits zero_fits
      zero_fits
sent-InRange op_mkdir r h =
    request_in zero_word h.mode zero_word zero_handle zero_fits zero_word zero_fits zero_fits
      zero_fits
sent-InRange op_rename r h =
    request_in zero_word zero_word zero_word zero_handle zero_fits zero_word zero_fits zero_fits
      zero_fits
sent-InRange op_setattr r h =
    request_in zero_word h.mode h.mask zero_handle zero_fits zero_word h.size h.atime h.mtime
sent-InRange op_server_info r h =
    request_in zero_word zero_word zero_word zero_handle zero_fits zero_word zero_fits zero_fits
      zero_fits
sent-InRange (op_other n) r h =
    request_in zero_word zero_word zero_word zero_handle zero_fits zero_word zero_fits zero_fits
      zero_fits
