-- ===== src/Protocol/Responses.antt =====
-- internal/protocol/protocol.go: the response codec.
pub mod Shape
pub mod RoundTrip
pub mod Relayed
use remote_adapter.Prelude.{
  ℕ, zero, suc, ◌%◌, ◌^◌, none, some, List, [], ◌∷◌, ◌++◌, Bytes, length, leb, if◌then◌else◌,
}
use remote_adapter.Prelude.Int.{ℤ, pos, to_word, is_zero}
use remote_adapter.Protocol.Types.{
  Op, op_stat, op_open, op_pread, op_readdir, op_pwrite, op_create, op_server_info, Response,
  errno_response, Result, ok,
}
use remote_adapter.Protocol.Types
use remote_adapter.Protocol.Frame.{put_u32, put_u64, write_frame, read_frame}
use remote_adapter.Protocol.Parser.{
  Parser, start, P, ◌>>=◌, ret, u8, u32, u64, i32, i64, left, bytes, put_bytes,
}
use remote_adapter.Protocol.Requests.{finish}

-- The entries of a directory: a name without a type is sent with type 0.
unfoldable pub put_entries : List Bytes → List ℕ → Bytes
put_entries [] ts = []
put_entries (n ∷ ns) [] = put_bytes n ++ (0 ∷ put_entries ns [])
put_entries (n ∷ ns) (t ∷ ts) = put_bytes n ++ (t ∷ put_entries ns ts)

-- The switch of `WriteResponse`, taken where `Err` is 0.
unfoldable pub response_fields : Op → Response → Bytes
response_fields op_stat r =
    put_u32 r.mode ++ (put_u64 (to_word (2 ^ 64) r.size) ++ put_u64 (to_word (2 ^ 64) r.mtime))
response_fields op_open r =
    put_u32 r.mode
    ++ (put_u64 (to_word (2 ^ 64) r.size)
        ++ (put_u64 r.handle ++ put_u64 (to_word (2 ^ 64) r.mtime)))
response_fields op_create r =
    put_u32 r.mode
    ++ (put_u64 (to_word (2 ^ 64) r.size)
        ++ (put_u64 r.handle ++ put_u64 (to_word (2 ^ 64) r.mtime)))
response_fields op_pread r = put_bytes r.body
response_fields op_pwrite r = put_u64 (to_word (2 ^ 64) r.size)
response_fields op_readdir r = put_u32 (length r.names % 2 ^ 32) ++ put_entries r.names r.types
response_fields op_server_info r = put_bytes r.os ++ put_bytes r.arch
response_fields _ r = []

unfoldable pub write_response : Op → Response → Result Bytes
write_response o r =
    write_frame
      (put_u32 (to_word (2 ^ 32) r.error) ++ (if is_zero r.error then response_fields o r else []))

-- One round of the loop over the entries, before the rounds that are left.
abbrev read_entry : P (List Bytes × List ℕ) → P (List Bytes × List ℕ)
read_entry rounds = do name ← bytes; t ← u8; more ← rounds; ret (name ∷ more.0, t ∷ more.1)

-- The loop stops at the parser's first failure.
unfoldable pub read_entries : ℕ → P (List Bytes × List ℕ)
read_entries zero p = (([], []), p)
read_entries (suc n) p = elim p.failure [
  | some e ↦ (([], []), p)
  | none ↦ read_entry (read_entries n) p
]

-- A peer that predates `Mtime` sends nothing here.
unfoldable pub read_mtime : P ℤ
read_mtime p = if leb 8 (left p) then i64 p else (pos 0, p)

-- The switch of `ReadResponse`, taken where the error number read is 0.
unfoldable pub read_answer : Op → P Response
read_answer op_stat = do
  mode ← u32
  size ← i64
  mtime ← read_mtime
  ret (record (errno_response (pos 0)) { mode = mode; size = size; mtime = mtime })
read_answer op_open = do
  mode ← u32
  size ← i64
  handle ← u64
  mtime ← read_mtime
  ret (record (errno_response (pos 0)) { mode = mode; size = size; handle = handle; mtime = mtime })
read_answer op_create = do
  mode ← u32
  size ← i64
  handle ← u64
  mtime ← read_mtime
  ret (record (errno_response (pos 0)) { mode = mode; size = size; handle = handle; mtime = mtime })
read_answer op_pread = do body ← bytes; ret (record (errno_response (pos 0)) { body = body })
read_answer op_pwrite = do size ← i64; ret (record (errno_response (pos 0)) { size = size })
read_answer op_readdir = do
  n ← u32
  entries ← read_entries n
  ret (record (errno_response (pos 0)) { names = entries.0; types = entries.1 })
read_answer op_server_info = do
  os ← bytes
  arch ← bytes
  ret (record (errno_response (pos 0)) { os = os; arch = arch })
read_answer _ = ret (errno_response (pos 0))

unfoldable pub parse_response : Op → Bytes → Result Response
parse_response o frame =
    let (e, p) = i32 (start frame) in
    finish (if is_zero e then read_answer o p else (errno_response e, p))

-- The response, and what is left of the stream.
unfoldable pub read_response : Op → Bytes → Result (Response × Bytes)
read_response o s =
    Types.◌>>=◌ (read_frame s)
      λ (frame, rest). Types.◌>>=◌ (parse_response o frame) λ r. ok (r, rest)
