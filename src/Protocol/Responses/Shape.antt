-- ===== src/Protocol/Responses/Shape.antt =====
-- Which fields of a response answer its op, and the ranges of Go's field types.
use remote_adapter.Prelude.{ℕ, ◌^◌, ◌<◌, List, [], ◌∷◌, Bytes, if◌then◌else◌}
use remote_adapter.Prelude.Int.{pos, Fits, is_zero}
use remote_adapter.Protocol.Types.{
  Op, op_stat, op_open, op_pread, op_readdir, op_pwrite, op_create, op_server_info, Response,
  errno_response,
}

-- One type for each name, 0 where the response has none.
unfoldable pub pad : List Bytes → List ℕ → List ℕ
pad [] ts = []
pad (n ∷ ns) [] = 0 ∷ pad ns []
pad (n ∷ ns) (t ∷ ts) = t ∷ pad ns ts

-- A successful response as its op sends it.
unfoldable pub answer : Op → Response → Response
answer op_stat r = record (errno_response (pos 0)) { mode = r.mode; size = r.size; mtime = r.mtime }
answer op_open r = record (errno_response (pos 0)) {
  mode = r.mode;
  size = r.size;
  handle = r.handle;
  mtime = r.mtime;
}
answer op_create r = record (errno_response (pos 0)) {
  mode = r.mode;
  size = r.size;
  handle = r.handle;
  mtime = r.mtime;
}
answer op_pread r = record (errno_response (pos 0)) { body = r.body }
answer op_pwrite r = record (errno_response (pos 0)) { size = r.size }
answer op_readdir r = record (errno_response (pos 0)) {
  names = r.names;
  types = pad r.names r.types;
}
answer op_server_info r = record (errno_response (pos 0)) { os = r.os; arch = r.arch }
answer _ r = errno_response (pos 0)

-- A failure carries its error number alone.
unfoldable pub answered : Op → Response → Response
answered o r = if is_zero r.error then answer o r else errno_response r.error

pub record InRange (r : Response) : Type 0 where
  pub error : Fits (2 ^ 31) r.error
  pub mode : r.mode < 2 ^ 32
  pub size : Fits (2 ^ 63) r.size
  pub handle : r.handle < 2 ^ 64
  pub mtime : Fits (2 ^ 63) r.mtime
