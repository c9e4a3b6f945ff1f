-- ===== src/Adapter/Session/Failures.antt =====
-- What becomes of a request whose link to the executor fails.
use remote_adapter.Prelude.{
  ◌≡◌, refl, ap, subst, sym, Bool, true, false, Option, none, some, Bool-cases, inl, inr,
  if◌then◌else◌,
}
use remote_adapter.Prelude.Int.{neg}
use remote_adapter.Protocol.Types.{Request, Response, errno_response}
use remote_adapter.Executor.Fs.{eio}
use remote_adapter.Executor.Host.{Host}
use remote_adapter.Adapter.Link.{Link}
use remote_adapter.Adapter.Session.{
  Session, remote_rpc, relay, relayed, received, dialed, announced,
}

module _ {h : Host} {k : Link} where
  -- The link on which the request goes: the stream that the session has, or one that was dialed and
  -- announced for it.
  pub data OnStream (s : Session h k) : k.State → Type 0 where
    kept : s.connected ≡ true → OnStream s s.link
    fresh :
        (l m : k.State)
        → s.connected ≡ false
        → k.dial s.link ≡ (true, l)
        → k.write_kind l ≡ (true, m)
        → OnStream s m

  -- What becomes of a request that is relayed: its answer and the session afterwards.
  pub data Outcome (r : Request) (s : Session h k) : Response × Session h k → Type 0 where
    delivered :
        (a : Response) (l sent left : k.State)
        → OnStream s l
        → k.send r l ≡ (true, sent)
        → k.receive r.op sent ≡ (some a, left)
        → Outcome r s (a, record s { connected = true; link = left })
    unanswered :
        (l sent left : k.State)
        → OnStream s l
        → k.send r l ≡ (true, sent)
        → k.receive r.op sent ≡ (none, left)
        → Outcome r s (errno_response (neg eio), record s { connected = true; link = left })
    unsent :
        (l left : k.State)
        → OnStream s l
        → k.send r l ≡ (false, left)
        → Outcome r s (errno_response (neg eio), record s { connected = true; link = left })
    unreached :
        (l : k.State)
        → s.connected ≡ false
        → k.dial s.link ≡ (false, l)
        → Outcome r s (errno_response (neg eio), record s { connected = false; link = l })
    unannounced :
        (l m : k.State)
        → s.connected ≡ false
        → k.dial s.link ≡ (true, l)
        → k.write_kind l ≡ (false, m)
        → Outcome r s (errno_response (neg eio), record s { connected = false; link = k.shut m })

  module _ (r : Request) (s : Session h k) (l : k.State) (on : OnStream s l) where
    -- The session once it has the stream.
    up : Session h k
    up = record s { connected = true; link = l }

    received-Outcome :
        (sent : k.State) (x : Option Response × k.State)
        → k.send r l ≡ (true, sent)
        → k.receive r.op sent ≡ x
        → Outcome r s (received up x)
    unfolding up
    received-Outcome sent (none, left) e f = unanswered l sent left on e f
    received-Outcome sent (some a, left) e f = delivered a l sent left on e f

    relayed-Outcome : (x : Bool × k.State) → k.send r l ≡ x → Outcome r s (relayed r up x)
    unfolding up
    relayed-Outcome (false, left) e = unsent l left on e
    relayed-Outcome (true, sent) e = received-Outcome sent (k.receive r.op sent) e refl

  module _ (r : Request) (s : Session h k) (down : s.connected ≡ false) where
    closed : (l : k.State) → record s { link = l } ≡ record s { connected = false; link = l }
    closed l = ap (λ b. record s { connected = b; link = l }) down

    announced-Outcome :
        (l : k.State) (x : Bool × k.State)
        → k.dial s.link ≡ (true, l)
        → k.write_kind l ≡ x
        → Outcome r s (announced r s x)
    unfolding up
    announced-Outcome l (false, m) e f =
        subst (λ u. Outcome r s (errno_response (neg eio), u)) (sym (closed (k.shut m)))
          (unannounced l m down e f)
    announced-Outcome l (true, m) e f = relayed-Outcome r s m (fresh l m down e f) (k.send r m) refl

    dialed-Outcome : (x : Bool × k.State) → k.dial s.link ≡ x → Outcome r s (dialed r s x)
    dialed-Outcome (false, l) e =
        subst (λ u. Outcome r s (errno_response (neg eio), u)) (sym (closed l)) (unreached l down e)
    dialed-Outcome (true, l) e = announced-Outcome l (k.write_kind l) e refl

  -- The adapter never makes up an answer of the executor: what a relayed request gets is what the link
  -- delivered for its op, after the request was sent, on the session's stream or on one that was dialed
  -- and announced because it had none, and the stream is kept; or it is EIO, where sending or
  -- receiving failed, with the stream kept, or where dialing or announcing failed, with none, a
  -- stream that was dialed being shut. Nothing else of the session changes.
  pub remote_rpc-Outcome : (r : Request) (s : Session h k) → Outcome r s (remote_rpc r s)
  unfolding remote_rpc up
  remote_rpc-Outcome r s = elim (Bool-cases s.connected) [
    | inl live ↦
        subst (λ b. Outcome r s (if b then relay r s else dialed r s (k.dial s.link))) (sym live)
          (subst (λ b. Outcome r s (relay r (record s { connected = b }))) (sym live)
            (relayed-Outcome r s s.link (kept live) (k.send r s.link) refl))
    | inr down ↦
        subst (λ b. Outcome r s (if b then relay r s else dialed r s (k.dial s.link))) (sym down)
          (dialed-Outcome r s down (k.dial s.link) refl)
  ]
