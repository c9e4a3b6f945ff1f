-- ===== src/Protocol/Requests/Shape.antt =====
-- Which fields of a request its op sends, and the ranges of Go's field types.
use remote_adapter.Prelude.{ℕ, ◌^◌, ◌<◌, Bytes, arith}
use remote_adapter.Prelude.Int.{Fits}
use remote_adapter.Protocol.Types.{
  Op, op_stat, op_open, op_pread, op_write_file, op_close, op_readdir, op_pwrite, op_create,
  op_unlink, op_mkdir, op_rename, op_setattr, op_server_info, op_other, Request, blank_request,
}

-- The request as its op sends it: every other field is zero.
unfoldable pub sent : Op → Request → Request
sent op_stat r = record (blank_request op_stat) { path = r.path }
sent op_readdir r = record (blank_request op_readdir) { path = r.path }
sent op_open r = record (blank_request op_open) { flags = r.flags; path = r.path }
sent op_pread r = record (blank_request op_pread) { handle = r.handle; off = r.off; len = r.len }
sent op_write_file r = record (blank_request op_write_file) { path = r.path; body = r.body }
sent op_close r = record (blank_request op_close) { handle = r.handle }
sent op_pwrite r = record (blank_request op_pwrite) {
  handle = r.handle;
  off = r.off;
  body = r.body;
}
sent op_create r = record (blank_request op_create) {
  path = r.path;
  flags = r.flags;
  mode = r.mode;
}
sent op_unlink r = record (blank_request op_unlink) { path = r.path; flags = r.flags }
sent op_mkdir r = record (blank_request op_mkdir) { path = r.path; mode = r.mode }
sent op_rename r = record (blank_request op_rename) { path = r.path; path2 = r.path2 }
sent op_setattr r = record (blank_request op_setattr) {
  path = r.path;
  mask = r.mask;
  mode = r.mode;
  size = r.size;
  atime = r.atime;
  mtime = r.mtime;
}
sent op_server_info r = blank_request op_server_info
sent (op_other n) r = blank_request (op_other n)

-- Each number lies in the range of its Go type.
pub record InRange (r : Request) : Type 0 where
  pub flags : r.flags < 2 ^ 32
  pub mode : r.mode < 2 ^ 32
  pub mask : r.mask < 2 ^ 32
  pub handle : r.handle < 2 ^ 64
  pub off : Fits (2 ^ 63) r.off
  pub len : r.len < 2 ^ 32
  pub size : Fits (2 ^ 63) r.size
  pub atime : Fits (2 ^ 63) r.atime
  pub mtime : Fits (2 ^ 63) r.mtime

-- A request of a path, flags and a handle is in range where these two are.
pub plain-InRange :
    (o : Op) (path : Bytes) (flags handle : ℕ)
    → flags < 2 ^ 32
    → handle < 2 ^ 64
    → InRange (record (blank_request o) { path = path; flags = flags; handle = handle })
plain-InRange o path flags handle f g = record {
  flags = f;
  mode = omega arith;
  mask = omega arith;
  handle = g;
  off = omega arith;
  len = omega arith;
  size = omega arith;
  atime = omega arith;
  mtime = omega arith;
}
