-- ===== src/Adapter/Conn.antt =====
-- internal/adapter/adapter.go: one interceptor connection. The connection is the bytes that it delivers
-- before its end, and it takes every byte that is written to it.
pub mod Answers
pub mod Rounds
pub mod Cut
use remote_adapter.Prelude.{ℕ, zero, suc, ◌+◌, Option, none, some, [], ◌++◌, Bytes, length}
use remote_adapter.Protocol.Types.{Result, ok, err, Request, Response}
use remote_adapter.Protocol.Requests.{read_request}
use remote_adapter.Protocol.Responses.{write_response}
use remote_adapter.Routing.{Table}
use remote_adapter.Executor.Host.{Host}
use remote_adapter.Adapter.Link.{Link}
use remote_adapter.Adapter.Session.{Session, new_session, handle, close}

module _ {h : Host} {k : Link} where
  abbrev pub with_out : Bytes → Option (Bytes × Session h k) → Option (Bytes × Session h k)
  with_out out none = none
  with_out out (some (outs, u)) = some (out ++ outs, u)

  -- A response that cannot be framed ends the loop.
  abbrev pub sent_back :
      (Session h k → Option (Bytes × Session h k))
      → Result Bytes
      → Session h k
      → Option (Bytes × Session h k)
  sent_back rounds (err e) s = some ([], s)
  sent_back rounds (ok out) s = with_out out (rounds s)

  abbrev pub handled :
      Table
      → (Bytes → Session h k → Option (Bytes × Session h k))
      → Result (Request × Bytes)
      → Session h k
      → Option (Bytes × Session h k)
  handled t rounds (err e) s = some ([], s)
  handled t rounds (ok (r, rest)) s =
      let (a, u) = handle t r s in sent_back (rounds rest) (write_response r.op a) u

  -- The loop of `serveConn`: what it writes and the session at its end, or `none` where it has not come to
  -- its end within so many rounds.
  unfoldable pub conn_loop : Table → ℕ → Bytes → Session h k → Option (Bytes × Session h k)
  conn_loop t zero input s = none
  conn_loop t (suc fuel) input s = handled t (conn_loop t fuel) (read_request input) s

  abbrev pub closed_at_end : Option (Bytes × Session h k) → Option (Bytes × Session h k)
  closed_at_end none = none
  closed_at_end (some (out, s)) = some (out, close s)

  -- Each request takes a byte at least. The session is closed at the end.
  unfoldable pub serve_conn : Table → Bytes → h.World → k.State → Option (Bytes × Session h k)
  unfolding conn_loop new_session
  serve_conn t input w l = closed_at_end (conn_loop t (length input + 1) input (new_session w l))
