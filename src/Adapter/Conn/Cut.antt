-- ===== src/Adapter/Conn/Cut.antt =====
-- A connection that is cut off in the middle of a request.
use remote_adapter.Prelude.{
  ℕ, zero, suc, ◌<◌, ◌≡◌, ap, some, inl, inr, List, [], ◌++◌, Bytes, length, append_assoc, arith,
}
use remote_adapter.Protocol.Types.{Request}
use remote_adapter.Protocol.Frame.Cut.{IsCut}
use remote_adapter.Protocol.Requests.{read_request}
use remote_adapter.Protocol.Requests.Cut.{IsPart, read_request-IsCut}
use remote_adapter.Protocol.Requests.Relayed.{sent-op}
use remote_adapter.Protocol.Requests.RoundTrip.{read_request-write_request}
use remote_adapter.Routing.{Table}
use remote_adapter.Executor.Host.{Host}
use remote_adapter.Executor.Stream.Serving.{Wires, unsent, framed}
use remote_adapter.Adapter.Link.{Link}
use remote_adapter.Adapter.Session.{Session}
use remote_adapter.Adapter.Conn.{conn_loop, handled}
use remote_adapter.Adapter.Conn.Answers.{Handled, no_more, handling}

conn_loop-IsCut :
    {h : Host} {k : Link} (t : Table) (fuel : ℕ) (p : Bytes) (s : Session h k)
    → IsCut (read_request p)
    → conn_loop t (suc fuel) p s ≡ some ([], s)
unfolding conn_loop
conn_loop-IsCut t fuel p s (inl e) = ap (λ x. handled t (conn_loop t fuel) x s) e
conn_loop-IsCut t fuel p s (inr e) = ap (λ x. handled t (conn_loop t fuel) x s) e

-- A connection that is cut off in the middle of a request is served as if that request had never been
-- sent: the whole requests before it are answered, in order, and the session is as they leave it, where
-- the numbers of these requests are in the range of their types, their answers can be framed, and there
-- is a round for each of them and one for the end.
pub conn_loop-cut :
    {h : Host} {k : Link} (t : Table) {rs : List Request} {ws outs : Bytes} {s u : Session h k}
    (fuel : ℕ) (r : Request) (p : Bytes)
    → Wires rs ws
    → Handled t rs s outs u
    → IsPart r p
    → length rs < fuel
    → conn_loop t fuel (ws ++ p) s ≡ some (outs, u)
unfolding conn_loop
conn_loop-cut t zero r p w d part enough = absurd (omega arith)
conn_loop-cut t {s = s} (suc fuel) r p unsent no_more part enough =
    conn_loop-IsCut t fuel p s (read_request-IsCut r p part)
conn_loop-cut t (suc fuel) r p (framed {r = q} {rs} {w} {ws} range e more)
      (handling answer out rest) part enough =
    rw (append_assoc w ws p) (
      rw (read_request-write_request q w (ws ++ p) range e) (
        rw (answer, sent-op q.op q, out)
          (rw (conn_loop-cut t fuel r p more rest part (omega arith)))))
