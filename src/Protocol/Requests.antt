-- ===== src/Protocol/Requests.antt =====
-- internal/protocol/protocol.go: the request codec.
pub mod Shape
pub mod RoundTrip
pub mod Consumes
pub mod Relayed
pub mod Cut
use remote_adapter.Prelude.{ℕ, ◌%◌, ◌^◌, Option, none, some, List, [], ◌∷◌, ◌++◌, Bytes}
use remote_adapter.Prelude.Int.{to_word}
use remote_adapter.Protocol.Types.{
  Op, op_stat, op_open, op_pread, op_write_file, op_close, op_readdir, op_pwrite, op_create,
  op_unlink, op_mkdir, op_rename, op_setattr, op_server_info, op_other, op_code, op_of_code,
  Request, blank_request, Result, ok, err, unknown_op,
}
use remote_adapter.Protocol.Types
use remote_adapter.Protocol.Frame.{put_u32, put_u64, write_frame, read_frame}
use remote_adapter.Protocol.Parser.{
  Parser, start, P, ◌>>=◌, ret, u8, u32, u64, i64, bytes, put_bytes,
}

-- The switch of `WriteRequest`: what follows the op byte. `none` is its default case.
unfoldable pub request_fields : Op → Request → Option Bytes
request_fields op_stat r = some (put_bytes r.path)
request_fields op_readdir r = some (put_bytes r.path)
request_fields op_open r = some (put_u32 r.flags ++ put_bytes r.path)
request_fields op_pread r =
    some (put_u64 r.handle ++ (put_u64 (to_word (2 ^ 64) r.off) ++ put_u32 r.len))
request_fields op_write_file r = some (put_bytes r.path ++ put_bytes r.body)
request_fields op_close r = some (put_u64 r.handle)
request_fields op_pwrite r =
    some (put_u64 r.handle ++ (put_u64 (to_word (2 ^ 64) r.off) ++ put_bytes r.body))
request_fields op_create r = some (put_bytes r.path ++ (put_u32 r.flags ++ put_u32 r.mode))
request_fields op_unlink r = some (put_bytes r.path ++ put_u32 r.flags)
request_fields op_mkdir r = some (put_bytes r.path ++ put_u32 r.mode)
request_fields op_rename r = some (put_bytes r.path ++ put_bytes r.path2)
request_fields op_setattr r = some (
    put_bytes r.path
    ++ (put_u32 r.mask
        ++ (put_u32 r.mode
            ++ (put_u64 (to_word (2 ^ 64) r.size)
                ++ (put_u64 (to_word (2 ^ 64) r.atime) ++ put_u64 (to_word (2 ^ 64) r.mtime))))))
request_fields op_server_info r = some []
request_fields (op_other n) r = none

-- The default case refuses the op; the others are framed behind the op byte.
abbrev pub frame_fields : Op → Option Bytes → Result Bytes
frame_fields o none = err (unknown_op (op_code o))
frame_fields o (some fields) = write_frame ((op_code o % 256) ∷ fields)

unfoldable pub write_request : Request → Result Bytes
write_request r = frame_fields r.op (request_fields r.op r)

-- The switch of `ReadRequest`, after the op byte. `none` is its default case.
unfoldable pub read_fields : Op → Option (P Request)
read_fields op_stat = some do path ← bytes; ret (record (blank_request op_stat) { path = path })
read_fields op_readdir =
    some do path ← bytes; ret (record (blank_request op_readdir) { path = path })
read_fields op_open = some do
  flags ← u32
  path ← bytes
  ret (record (blank_request op_open) { flags = flags; path = path })
read_fields op_pread = some do
  handle ← u64
  off ← i64
  len ← u32
  ret (record (blank_request op_pread) { handle = handle; off = off; len = len })
read_fields op_write_file = some do
  path ← bytes
  body ← bytes
  ret (record (blank_request op_write_file) { path = path; body = body })
read_fields op_close =
    some do handle ← u64; ret (record (blank_request op_close) { handle = handle })
read_fields op_pwrite = some do
  handle ← u64
  off ← i64
  body ← bytes
  ret (record (blank_request op_pwrite) { handle = handle; off = off; body = body })
read_fields op_create = some do
  path ← bytes
  flags ← u32
  mode ← u32
  ret (record (blank_request op_create) { path = path; flags = flags; mode = mode })
read_fields op_unlink = some do
  path ← bytes
  flags ← u32
  ret (record (blank_request op_unlink) { path = path; flags = flags })
read_fields op_mkdir =
    some do
      path ← bytes
      mode ← u32
      ret (record (blank_request op_mkdir) { path = path; mode = mode })
read_fields op_rename = some do
  path ← bytes
  path2 ← bytes
  ret (record (blank_request op_rename) { path = path; path2 = path2 })
read_fields op_setattr = some do
  path ← bytes
  mask ← u32
  mode ← u32
  size ← i64
  atime ← i64
  mtime ← i64
  ret (record (blank_request op_setattr) {
    path = path;
    mask = mask;
    mode = mode;
    size = size;
    atime = atime;
    mtime = mtime;
  })
read_fields op_server_info = some (ret (blank_request op_server_info))
read_fields (op_other n) = none

-- What the parser's first failure makes of a result.
unfoldable pub finish {ℓ} : {A : Type ℓ} → A × Parser → Result A
finish (a, p) = elim p.failure [ none ↦ ok a | some e ↦ err e ]

-- The default case returns before the parser's failure is looked at.
abbrev pub run_fields : ℕ → Option (P Request) → Parser → Result Request
run_fields code none p = err (unknown_op code)
run_fields code (some fields) p = finish (fields p)

unfoldable pub parse_request : Bytes → Result Request
parse_request frame =
    let (code, p) = u8 (start frame) in run_fields code (read_fields (op_of_code code)) p

-- The request, and what is left of the stream.
unfoldable pub read_request : Bytes → Result (Request × Bytes)
read_request s =
    Types.◌>>=◌ (read_frame s) λ (frame, rest). Types.◌>>=◌ (parse_request frame) λ r. ok (r, rest)
