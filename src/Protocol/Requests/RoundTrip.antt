-- ===== src/Protocol/Requests/RoundTrip.antt =====
-- What `WriteRequest` frames, `ReadRequest` reads back.
use remote_adapter.Prelude.{
  ℕ, ◌%◌, ◌^◌, ◌≤◌, ◌≡◌, refl, Option, none, some, ◌∷◌, ◌++◌, Bytes, length, length-append, arith,
  Option-cases, inl, inr,
}
use remote_adapter.Prelude.Int.{to_word}
use remote_adapter.Protocol.Types.{
  Op, op_stat, op_open, op_pread, op_write_file, op_close, op_readdir, op_pwrite, op_create,
  op_unlink, op_mkdir, op_rename, op_setattr, op_server_info, op_other, op_code, op_of_code,
  Request, Result, ok, err, unknown_op, max_frame,
}
use remote_adapter.Protocol.Frame.{put_u32, put_u64}
use remote_adapter.Protocol.Frame.Laws.{
  length-put_u32, length-put_u64, write_frame_bound, read_frame-write_frame,
}
use remote_adapter.Protocol.Parser.{start, P, put_bytes}
use remote_adapter.Protocol.Parser.Laws.{
  u8-cons, u32-put_u32, u64-put_u64, i64-put_u64, bytes-put_bytes, u32-put_u32_last,
  u64-put_u64_last, i64-put_u64_last, bytes-put_bytes_last, length-put_bytes,
}
use remote_adapter.Protocol.Requests.{
  request_fields, write_request, read_fields, finish, parse_request, read_request, frame_fields,
}
use remote_adapter.Protocol.Requests.Shape.{sent, InRange}

ruleset lengths = (arith, length-put_u32, length-put_u64, length-put_bytes)

-- A reader on the fields that a writer made.
abbrev read_back : ℕ → Option (P Request) → Option Bytes → Result Request
read_back code (some m) (some b) = finish (m (start b))
read_back code _ _ = err (unknown_op code)

abbrev Sized : Option Bytes → Type 0
Sized none = ⊥
Sized (some b) = length b ≤ max_frame

-- The switch of the reader undoes the switch of the writer.
fields_back :
    (o : Op) (r : Request)
    → InRange r
    → Sized (request_fields o r)
    → read_back (op_code o) (read_fields o) (request_fields o r) ≡ ok (sent o r)
unfolding request_fields read_fields sent finish
fields_back op_stat r h l = rw (bytes-put_bytes_last r.path (omega lengths))
fields_back op_readdir r h l = rw (bytes-put_bytes_last r.path (omega lengths))
fields_back op_open r h l =
    let l' = rw (length-append (put_u32 r.flags)) at l in
    simp
      (u32-put_u32 r.flags (put_bytes r.path) h.flags, bytes-put_bytes_last r.path (omega lengths))
fields_back op_pread r h l = simp (
  u64-put_u64 r.handle (put_u64 (to_word (2 ^ 64) r.off) ++ put_u32 r.len) h.handle,
  i64-put_u64 r.off (put_u32 r.len) h.off,
  u32-put_u32_last r.len h.len,
)
fields_back op_write_file r h l =
    let l' = rw (length-append (put_bytes r.path)) at l in
    simp (
      bytes-put_bytes r.path (put_bytes r.body) (omega lengths),
      bytes-put_bytes_last r.body (omega lengths),
    )
fields_back op_close r h l = simp (u64-put_u64_last r.handle h.handle)
fields_back op_pwrite r h l =
    let l' = simp (length-append) at l in
    simp (
      u64-put_u64 r.handle (put_u64 (to_word (2 ^ 64) r.off) ++ put_bytes r.body) h.handle,
      i64-put_u64 r.off (put_bytes r.body) h.off,
      bytes-put_bytes_last r.body (omega lengths),
    )
fields_back op_create r h l =
    let l' = simp (length-append) at l in
    simp (
      bytes-put_bytes r.path (put_u32 r.flags ++ put_u32 r.mode)
          (rw (length-append (put_u32 r.flags)) (omega lengths)),
      u32-put_u32 r.flags (put_u32 r.mode) h.flags,
      u32-put_u32_last r.mode h.mode,
    )
fields_back op_unlink r h l =
    let l' = simp (length-append) at l in
    simp
      (bytes-put_bytes r.path (put_u32 r.flags) (omega lengths), u32-put_u32_last r.flags h.flags)
fields_back op_mkdir r h l =
    let l' = simp (length-append) at l in
    simp (bytes-put_bytes r.path (put_u32 r.mode) (omega lengths), u32-put_u32_last r.mode h.mode)
fields_back op_rename r h l =
    let l' = simp (length-append) at l in
    simp (
      bytes-put_bytes r.path (put_bytes r.path2) (omega lengths),
      bytes-put_bytes_last r.path2 (omega lengths),
    )
fields_back op_setattr r h l =
    let times = put_u64 (to_word (2 ^ 64) r.atime) ++ put_u64 (to_word (2 ^ 64) r.mtime) in
    let sizes = put_u64 (to_word (2 ^ 64) r.size) ++ times in
    let l' = rw (length-append (put_bytes r.path)) at l in
    simp (
      bytes-put_bytes r.path (put_u32 r.mask ++ (put_u32 r.mode ++ sizes)) (omega lengths),
      u32-put_u32 r.mask (put_u32 r.mode ++ sizes) h.mask,
      u32-put_u32 r.mode sizes h.mode,
      i64-put_u64 r.size times h.size,
      i64-put_u64 r.atime (put_u64 (to_word (2 ^ 64) r.mtime)) h.atime,
      i64-put_u64_last r.mtime h.mtime,
    )
fields_back op_server_info r h l = refl
fields_back (op_other n) r h l = absurd l

-- The op byte of an op that is sent reads back as that op.
op_of_code-op_code :
    (o : Op) (r : Request) {b : Bytes}
    → request_fields o r ≡ some b
    → op_of_code (op_code o % 256) ≡ o
unfolding request_fields op_of_code op_code
op_of_code-op_code (op_other n) r e = cc
op_of_code-op_code _ r e = refl

parse_request-fields :
    (o : Op) (r : Request) (b : Bytes)
    → InRange r
    → request_fields o r ≡ some b
    → length b ≤ max_frame
    → parse_request ((op_code o % 256) ∷ b) ≡ ok (sent o r)
unfolding parse_request
parse_request-fields o r b h e l =
    rw (parse_request, u8-cons (op_code o % 256) b)
      (rw (op_of_code-op_code o r e) (elim (Option-cases (read_fields o)) [
        | inl no_reader ↦ cc (rw no_reader at back)
        | inr (m, reader) ↦ rw reader (rw (reader, e) at back)
      ]))
  where
    back : read_back (op_code o) (read_fields o) (request_fields o r) ≡ ok (sent o r)
    back = fields_back o r h (rw e l)

-- Every request that `WriteRequest` accepts, with its numbers in the range of their types, is read
-- back by `ReadRequest` as the fields that its op sends, and what follows on the stream is left.
pub read_request-write_request :
    (r : Request) (wire rest : Bytes)
    → InRange r
    → write_request r ≡ ok wire
    → read_request (wire ++ rest) ≡ ok (sent r.op r, rest)
unfolding write_request read_request
read_request-write_request r wire rest h e = framed (request_fields r.op r) refl e
  where
    framed :
        (fields : Option Bytes)
        → request_fields r.op r ≡ fields
        → frame_fields r.op fields ≡ ok wire
        → read_request (wire ++ rest) ≡ ok (sent r.op r, rest)
    framed none fields e' = cc
    framed (some b) fields e' =
        rw (read_request, read_frame-write_frame ((op_code r.op % 256) ∷ b) wire rest e')
          (rw (parse_request-fields r.op r b h fields (omega (arith, write_frame_bound _ _ e'))))
