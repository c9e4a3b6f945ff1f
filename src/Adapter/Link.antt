-- ===== src/Adapter/Link.antt =====
-- The executor as internal/adapter reaches it: a transport.Dialer with the protocol.Conn over the
-- stream that it dials. A Dialer (Unix socket, yamux over a pipe, libp2p) is a parameter: a state, and
-- one function for each call that the adapter makes; nothing is assumed of it.
use remote_adapter.Prelude.{Bool, Option}
use remote_adapter.Protocol.Types.{Op, Request, Response}

pub record Link : Type 1 where
  pub State : Type 0
  -- Dial a stream; `false` is an error.
  pub dial : State → Bool × State
  -- Write the stream-kind byte 'F'.
  pub write_kind : State → Bool × State
  -- Close the stream.
  pub shut : State → State
  -- `Conn.SendRequest` and `Conn.ReadResponse` on the stream; `false` and `none` are errors.
  pub send : Request → State → Bool × State
  pub receive : Op → State → Option Response × State
