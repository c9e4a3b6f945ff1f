-- ===== src/Protocol/Names.antt =====
-- internal/protocol/protocol.go: how an op is named in a log.
use remote_adapter.Prelude.{ℕ, ◌+◌, ◌/◌, ◌%◌, [], ◌∷◌, ◌++◌, Bytes, codes, ltb, if◌then◌else◌}
use remote_adapter.Protocol.Types.{
  Op, op_stat, op_open, op_pread, op_write_file, op_close, op_readdir, op_pwrite, op_create,
  op_unlink, op_mkdir, op_rename, op_setattr, op_server_info, op_other,
}

-- The decimal digits of a byte.
unfoldable pub byte_decimal : ℕ → Bytes
byte_decimal n =
    if ltb n 10
    then (48 + n) ∷ []
    else if ltb n 100
    then (48 + n / 10) ∷ (48 + n % 10) ∷ []
    else (48 + n / 100) ∷ (48 + n / 10 % 10) ∷ (48 + n % 10) ∷ []

-- `Op.String`.
unfoldable pub op_name : Op → Bytes
unfolding byte_decimal
op_name op_stat = codes "STAT"
op_name op_open = codes "OPEN"
op_name op_pread = codes "PREAD"
op_name op_write_file = codes "WRITEFILE"
op_name op_close = codes "CLOSE"
op_name op_readdir = codes "READDIR"
op_name op_pwrite = codes "PWRITE"
op_name op_create = codes "CREATE"
op_name op_unlink = codes "UNLINK"
op_name op_mkdir = codes "MKDIR"
op_name op_rename = codes "RENAME"
op_name op_setattr = codes "SETATTR"
op_name op_server_info = codes "SERVERINFO"
op_name (op_other n) = codes "OP(" ++ (byte_decimal (n % 256) ++ codes ")")
