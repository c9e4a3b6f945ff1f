-- ===== src/Executor/Stream/Cut.antt =====
-- A stream that is cut off in the middle of a request.
use remote_adapter.Prelude.{
  ℕ, zero, suc, ◌<◌, ◌≡◌, ap, inl, inr, List, [], ◌++◌, Bytes, length, append_assoc, arith,
}
use remote_adapter.Protocol.Types.{Request}
use remote_adapter.Protocol.Frame.Cut.{IsCut}
use remote_adapter.Protocol.Requests.{read_request}
use remote_adapter.Protocol.Requests.Cut.{IsPart, read_request-IsCut}
use remote_adapter.Protocol.Requests.Relayed.{sent-op}
use remote_adapter.Protocol.Requests.RoundTrip.{read_request-write_request}
use remote_adapter.Executor.Host.{Host}
use remote_adapter.Executor.Fs.{Service}
use remote_adapter.Executor.Stream.{serve_loop, answered_request}
use remote_adapter.Executor.Stream.Serving.{Wires, unsent, framed, Served, idle, answering}

serve_loop-IsCut :
    {h : Host} (fuel : ℕ) (p : Bytes) (s : Service h)
    → IsCut (read_request p)
    → serve_loop (suc fuel) p s ≡ ([], s)
unfolding serve_loop
serve_loop-IsCut fuel p s (inl e) = ap (λ x. answered_request (serve_loop fuel) x s) e
serve_loop-IsCut fuel p s (inr e) = ap (λ x. answered_request (serve_loop fuel) x s) e

-- A stream that is cut off in the middle of a request is served as if that request had never been sent:
-- the loop answers the whole requests before it, in order, and the service is as they leave it, where
-- the numbers of these requests are in the range of their types, their answers can be framed, and there
-- is a round for each of them and one for the end.
pub serve_loop-cut :
    {h : Host} {rs : List Request} {ws outs : Bytes} {s t : Service h} (fuel : ℕ) (r : Request)
    (p : Bytes)
    → Wires rs ws
    → Served h rs s outs t
    → IsPart r p
    → length rs < fuel
    → serve_loop fuel (ws ++ p) s ≡ (outs, t)
unfolding serve_loop
serve_loop-cut zero r p w d part enough = absurd (omega arith)
serve_loop-cut {s = s} (suc fuel) r p unsent idle part enough =
    serve_loop-IsCut fuel p s (read_request-IsCut r p part)
serve_loop-cut (suc fuel) r p (framed {r = q} {rs} {w} {ws} range e more)
      (answering answer out rest) part enough =
    rw (append_assoc w ws p) (
      rw (read_request-write_request q w (ws ++ p) range e) (
        rw (answer, sent-op q.op q, out)
          (rw (serve_loop-cut fuel r p more rest part (omega arith)))))
