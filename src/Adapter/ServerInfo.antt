-- ===== src/Adapter/ServerInfo.antt =====
-- internal/adapter/adapter.go: the question for the executor's platform, on a stream of its own.
pub mod Answer
use remote_adapter.Prelude.{Bool, true, false, Option, none, some, Bytes, if◌then◌else◌}
use remote_adapter.Prelude.Int.{is_zero}
use remote_adapter.Protocol.Types.{op_server_info, Request, Response, blank_request}
use remote_adapter.Adapter.Link.{Link}

module _ (k : Link) where
  -- The stream is closed however the question ends; `none` is an error.
  abbrev pub closing : Option (Bytes × Bytes) × k.State → Option (Bytes × Bytes) × k.State
  closing (a, l) = (a, k.shut l)

  abbrev pub platform_of : Option Response × k.State → Option (Bytes × Bytes) × k.State
  platform_of (none, l) = (none, l)
  platform_of (some a, l) = (if is_zero a.error then some (a.os, a.arch) else none, l)

  abbrev pub after_send : Bool × k.State → Option (Bytes × Bytes) × k.State
  after_send (false, l) = (none, l)
  after_send (true, l) = platform_of (k.receive op_server_info l)

  abbrev pub after_kind : Bool × k.State → Option (Bytes × Bytes) × k.State
  after_kind (false, l) = (none, l)
  after_kind (true, l) = after_send (k.send (blank_request op_server_info) l)

  abbrev pub after_dial : Bool × k.State → Option (Bytes × Bytes) × k.State
  after_dial (false, l) = (none, l)
  after_dial (true, l) = closing (after_kind (k.write_kind l))

  -- `QueryServerInfo`.
  unfoldable pub query_server_info : k.State → Option (Bytes × Bytes) × k.State
  query_server_info l = after_dial (k.dial l)
