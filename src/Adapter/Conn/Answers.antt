-- ===== src/Adapter/Conn/Answers.antt =====
-- A connection answers its requests in order.
use remote_adapter.Prelude.{ℕ, zero, suc, ◌<◌, ◌≡◌, some, List, [], ◌∷◌, ◌++◌, Bytes, length, arith}
use remote_adapter.Protocol.Types.{ok, Request, Response}
use remote_adapter.Protocol.Requests.Shape.{sent}
use remote_adapter.Protocol.Requests.RoundTrip.{read_request-write_request}
use remote_adapter.Protocol.Responses.{write_response}
use remote_adapter.Routing.{Table}
use remote_adapter.Executor.Host.{Host}
use remote_adapter.Executor.Stream.Serving.{Wires, unsent, framed, read_request_end}
use remote_adapter.Protocol.Requests.Relayed.{sent-op}
use remote_adapter.Adapter.Link.{Link}
use remote_adapter.Adapter.Session.{Session, handle}
use remote_adapter.Adapter.Conn.{conn_loop}

-- The session handles the requests one after the other, each with a response that can be framed.
pub data Handled {h : Host} {k : Link} (t : Table)
    : List Request → Session h k → Bytes → Session h k → Type 0 where
  no_more : {s : Session h k} → Handled t [] s [] s
  handling :
      {r : Request} {rs : List Request} {s u : Session h k} {a : Response} {b : Session h k}
      {out outs : Bytes}
      → handle t (sent r.op r) s ≡ (a, b)
      → write_response r.op a ≡ ok out
      → Handled t rs b outs u
      → Handled t (r ∷ rs) s (out ++ outs) u

-- The loop of a connection answers the requests that the interceptor framed one after the other, in
-- order, as the session handles each of them in the state that the one before left; where the numbers of
-- the requests are in the range of their types, every answer can be framed, and there is a round for each
-- request and one for the end.
pub conn_loop-Handled :
    {h : Host} {k : Link} (t : Table) {rs : List Request} {ws outs : Bytes} {s u : Session h k}
    (fuel : ℕ)
    → Wires rs ws
    → Handled t rs s outs u
    → length rs < fuel
    → conn_loop t fuel ws s ≡ some (outs, u)
unfolding conn_loop
conn_loop-Handled t zero w d enough = absurd (omega arith)
conn_loop-Handled t (suc fuel) unsent no_more enough = rw read_request_end
conn_loop-Handled t (suc fuel) (framed {r} {rs} {w} {ws} range e more) (handling answer out rest)
      enough =
    rw (read_request-write_request r w ws range e)
      (rw (answer, sent-op r.op r, out) (rw (conn_loop-Handled t fuel more rest (omega arith))))
