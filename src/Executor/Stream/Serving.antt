-- ===== src/Executor/Stream/Serving.antt =====
-- The loop ends, and answers the requests of a stream in order.
use remote_adapter.Prelude.{ℕ, zero, suc, ◌<◌, ◌≡◌, refl, List, [], ◌∷◌, ◌++◌, Bytes, length, arith}
use remote_adapter.Protocol.Types.{ok, err, eof, Request, Response}
use remote_adapter.Protocol.Frame.{read_full, read_frame}
use remote_adapter.Protocol.Requests.{write_request, read_request}
use remote_adapter.Protocol.Requests.Shape.{sent, InRange}
use remote_adapter.Protocol.Requests.Relayed.{sent-op}
use remote_adapter.Protocol.Requests.RoundTrip.{read_request-write_request}
use remote_adapter.Protocol.Responses.{write_response}
use remote_adapter.Executor.Host.{Host}
use remote_adapter.Executor.Fs.{Service, serve}
use remote_adapter.Executor.Stream.{serve_loop}

-- The wire form of a list of requests, one after the other.
pub data Wires : List Request → Bytes → Type 0 where
  unsent : Wires [] []
  framed :
      {r : Request} {rs : List Request} {w ws : Bytes}
      → InRange r
      → write_request r ≡ ok w
      → Wires rs ws
      → Wires (r ∷ rs) (w ++ ws)

-- The service answers the requests one after the other, each with a response that can be framed.
pub data Served (h : Host) : List Request → Service h → Bytes → Service h → Type 0 where
  idle : {s : Service h} → Served h [] s [] s
  answering :
      {r : Request} {rs : List Request} {s t : Service h} {a : Response} {b : Service h}
      {out outs : Bytes}
      → serve (sent r.op r) s ≡ (a, b)
      → write_response r.op a ≡ ok out
      → Served h rs b outs t
      → Served h (r ∷ rs) s (out ++ outs) t

pub read_request_end : read_request [] ≡ err eof
unfolding read_request read_frame read_full
read_request_end = refl

-- The loop answers the requests that a client framed one after the other, in order, as the service
-- answers each of them from the state that the one before left; where the numbers of the requests are in the range of their types, every answer can be framed, and
-- there is a round for each request and one for the end.
pub serve_loop-Served :
    {h : Host} {rs : List Request} {ws outs : Bytes} {s t : Service h} (fuel : ℕ)
    → Wires rs ws
    → Served h rs s outs t
    → length rs < fuel
    → serve_loop fuel ws s ≡ (outs, t)
unfolding serve_loop
serve_loop-Served zero w d enough = absurd (omega arith)
serve_loop-Served (suc fuel) unsent idle enough = rw read_request_end
serve_loop-Served (suc fuel) (framed {r} {rs} {w} {ws} range e more) (answering answer out rest)
      enough =
    rw (read_request-write_request r w ws range e)
      (rw (answer, sent-op r.op r, out) (rw (serve_loop-Served fuel more rest (omega arith))))
