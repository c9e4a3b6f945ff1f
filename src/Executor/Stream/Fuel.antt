-- ===== src/Executor/Stream/Fuel.antt =====
-- The loop of a stream comes to its end.
use remote_adapter.Prelude.{ℕ, zero, suc, ◌+◌, ◌<◌, ◌≡◌, refl, ap, ◌∙◌, Bytes, length, ◌++◌, arith}
use remote_adapter.Protocol.Types.{Result, ok, err, Request}
use remote_adapter.Protocol.Requests.{read_request}
use remote_adapter.Protocol.Requests.Consumes.{read_request-lt}
use remote_adapter.Protocol.Responses.{write_response}
use remote_adapter.Executor.Host.{Host}
use remote_adapter.Executor.Fs.{Service, serve}
use remote_adapter.Executor.Stream.{serve_loop, answered_request, responded}

module _ (h : Host) (fuel : ℕ) where
  -- The loop takes no more rounds on a stream of fewer bytes than it has rounds.
  abbrev Settled : Type 0
  Settled =
      (input : Bytes) (s : Service h)
      → length input < fuel
      → serve_loop (suc fuel) input s ≡ serve_loop fuel input s

  responded-step :
      Settled
      → (rest : Bytes) (out : Result Bytes) (t : Service h) → length rest < fuel
      → responded (serve_loop (suc fuel) rest) out t ≡ responded (serve_loop fuel rest) out t
  responded-step step rest (err x) t shorter = refl
  responded-step step rest (ok out) t shorter = ap (λ p. (out ++ p.0, p.1)) (step rest t shorter)

  answered_request-step :
      Settled
      → (input : Bytes) (s : Service h) (q : Result (Request × Bytes)) → length input < suc fuel
      → read_request input ≡ q
      → answered_request (serve_loop (suc fuel)) q s ≡ answered_request (serve_loop fuel) q s
  answered_request-step step input s (err x) enough e = refl
  answered_request-step step input s (ok (r, rest)) enough e =
      responded-step step rest (write_response r.op (serve r s).0) (serve r s).1
        (omega (arith, read_request-lt input rest r e))

serve_loop-step :
    {h : Host} (fuel : ℕ) (input : Bytes) (s : Service h)
    → length input < fuel
    → serve_loop (suc fuel) input s ≡ serve_loop fuel input s
unfolding serve_loop
serve_loop-step zero input s enough = absurd (omega arith)
serve_loop-step {h} (suc fuel) input s enough =
    answered_request-step h fuel (serve_loop-step fuel) input s (read_request input) enough refl

-- The loop never runs out of rounds: with more rounds than the stream has bytes, it answers and does
-- the same however many more it is given.
pub serve_loop_enough :
    {h : Host} (fuel more : ℕ) (input : Bytes) (s : Service h)
    → length input < fuel
    → serve_loop (more + fuel) input s ≡ serve_loop fuel input s
serve_loop_enough fuel zero input s enough = ap (λ n. serve_loop n input s) (omega arith)
serve_loop_enough fuel (suc more) input s enough =
    ap (λ n. serve_loop n input s) (omega arith)
    ∙ serve_loop-step (more + fuel) input s (omega arith)
    ∙ serve_loop_enough fuel more input s enough
