-- ===== src/Protocol/Types.antt =====
-- internal/protocol/protocol.go: the operations, the messages, and the errors of the codec.
use remote_adapter.Prelude.{ℕ, Bool, List, [], Bytes, ◌==◌, if◌then◌else◌, bit_and}
use remote_adapter.Prelude.Int.{ℤ, pos}

-- `Op` is a uint8: `op_other` stands for the values that the package does not name.
pub data Op : Type 0 where
  op_stat op_open op_pread op_write_file op_close op_readdir op_pwrite op_create : Op
  op_unlink op_mkdir op_rename op_setattr op_server_info : Op
  op_other : ℕ → Op

unfoldable pub op_code : Op → ℕ
op_code op_stat = 1
op_code op_open = 2
op_code op_pread = 3
op_code op_write_file = 4
op_code op_close = 5
op_code op_readdir = 6
op_code op_pwrite = 7
op_code op_create = 8
op_code op_unlink = 9
op_code op_mkdir = 10
op_code op_rename = 11
op_code op_setattr = 12
op_code op_server_info = 13
op_code (op_other n) = n

-- The switches of the codec on a byte that was read.
unfoldable pub op_of_code : ℕ → Op
op_of_code n =
    if n == 1
    then op_stat
    else if n == 2
    then op_open
    else if n == 3
    then op_pread
    else if n == 4
    then op_write_file
    else if n == 5
    then op_close
    else if n == 6
    then op_readdir
    else if n == 7
    then op_pwrite
    else if n == 8
    then op_create
    else if n == 9
    then op_unlink
    else if n == 10
    then op_mkdir
    else if n == 11
    then op_rename
    else if n == 12
    then op_setattr
    else if n == 13
    then op_server_info
    else op_other n

abbrev pub unlink_rmdir : ℕ
unlink_rmdir = 1

abbrev pub set_mode : ℕ
set_mode = 1

abbrev pub set_size : ℕ
set_size = 2

abbrev pub set_atime : ℕ
set_atime = 4

abbrev pub set_mtime : ℕ
set_mtime = 8

-- 64 << 20
abbrev pub max_frame : ℕ
max_frame = 67_108_864

pub record Request : Type 0 where
  pub op : Op
  pub path : Bytes
  pub path2 : Bytes
  pub flags : ℕ
  pub mode : ℕ
  pub mask : ℕ
  pub handle : ℕ
  pub off : ℤ
  pub len : ℕ
  pub size : ℤ
  pub atime : ℤ
  pub mtime : ℤ
  pub body : Bytes

-- Go's zero value of `Request` with its `Op` set.
abbrev pub blank_request : Op → Request
blank_request o = record {
  op = o;
  path = [];
  path2 = [];
  flags = 0;
  mode = 0;
  mask = 0;
  handle = 0;
  off = pos 0;
  len = 0;
  size = pos 0;
  atime = pos 0;
  mtime = pos 0;
  body = [];
}

pub record Response : Type 0 where
  pub error : ℤ
  pub mode : ℕ
  pub size : ℤ
  pub handle : ℕ
  pub mtime : ℤ
  pub body : Bytes
  pub names : List Bytes
  pub types : List ℕ
  pub os : Bytes
  pub arch : Bytes

-- `&Response{Err: e}`
abbrev pub errno_response : ℤ → Response
errno_response e = record {
  error = e;
  mode = 0;
  size = pos 0;
  handle = 0;
  mtime = pos 0;
  body = [];
  names = [];
  types = [];
  os = [];
  arch = [];
}

abbrev pub dt_unknown : ℕ
dt_unknown = 0

abbrev pub dt_dir : ℕ
dt_dir = 4

abbrev pub dt_reg : ℕ
dt_reg = 8

abbrev pub dt_lnk : ℕ
dt_lnk = 10

unfoldable pub is_dir : Response → Bool
is_dir r = bit_and r.mode 0o170000 == 0o040000

pub data Error : Type 0 where
  eof unexpected_eof : Error
  frame_too_large unknown_op : ℕ → Error
  short_u8 short_u32 short_u64 short_bytes : Error
  -- Of execproto.go: a spawn header that is too large, or that is no JSON of a `SpawnRequest`.
  header_too_large : ℕ → Error
  bad_header : Error

pub data Result {ℓ} (A : Type ℓ) : Type ℓ where
  ok : A → Result A
  err : Error → Result A

infixl 5 ◌>>=◌
abbrev pub ◌>>=◌ {ℓ κ} : {A : Type ℓ} {B : Type κ} → Result A → (A → Result B) → Result B
ok a >>= f = f a
err e >>= f = err e
