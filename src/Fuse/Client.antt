-- ===== src/Fuse/Client.antt =====
-- internal/linuxfuse/fs_linux.go: the client, which dials on demand and drops a stream that failed.
-- The link is the adapter's socket; no stream-kind byte is written on it.
use remote_adapter.Prelude.{
  ◌≡◌, ◌∙◌, refl, ap, sym, subst, ◌⊎◌, inl, inr, Bool, true, false, Option, none, some, Bool-cases,
  if◌then◌else◌,
}
use remote_adapter.Prelude.Int.{neg}
use remote_adapter.Protocol.Types.{Request, Response, errno_response}
use remote_adapter.Executor.Fs.{eio}
use remote_adapter.Adapter.Link.{Link}

pub record Client (k : Link) : Type 0 where
  pub connected : Bool
  pub link : k.State

unfoldable pub new_client : (k : Link) → k.State → Client k
new_client k l = record { connected = false; link = l }

-- The adapter can be reached again: a stream that is dialed now, whatever became of the ones before,
-- carries the request and its answer.
pub record IsBack (k : Link) (r : Request) (a : Response) : Type 0 where
  pub fresh : k.State → k.State
  pub sent : k.State → k.State
  pub done : k.State → k.State
  pub dials : (l : k.State) → k.dial l ≡ (true, fresh l)
  pub sends : (l : k.State) → k.send r (fresh l) ≡ (true, sent l)
  pub answers : (l : k.State) → k.receive r.op (sent l) ≡ (some a, done l)

module _ {k : Link} where
  unfoldable pub reset : Client k → Client k
  reset c = if c.connected then record { connected = false; link = k.shut c.link } else c

  abbrev pub with_link : Client k → k.State → Client k
  with_link c l = record c { link = l }

  abbrev pub failed : Client k → Response × Client k
  failed c = (errno_response (neg eio), c)

  abbrev pub received : Client k → Option Response × k.State → Response × Client k
  received c (none, l) = failed (reset (with_link c l))
  received c (some a, l) = (a, with_link c l)

  abbrev pub exchanged : Request → Client k → Bool × k.State → Response × Client k
  exchanged r c (false, l) = failed (reset (with_link c l))
  exchanged r c (true, l) = received (with_link c l) (k.receive r.op l)

  abbrev pub exchange : Request → Client k → Response × Client k
  exchange r c = exchanged r c (k.send r c.link)

  abbrev pub dialed : Request → Client k → Bool × k.State → Response × Client k
  dialed r c (false, l) = failed (with_link c l)
  dialed r c (true, l) = exchange r (record { connected = true; link = l })

  unfoldable pub call : Request → Client k → Response × Client k
  call r c = if c.connected then exchange r c else dialed r c (k.dial c.link)

  -- The link on which a call goes: the client's stream, or one that is dialed for it.
  pub data OnStream (c : Client k) : k.State → Type 0 where
    kept : c.connected ≡ true → OnStream c c.link
    fresh : (l : k.State) → c.connected ≡ false → k.dial c.link ≡ (true, l) → OnStream c l

  -- A stream is kept only where it delivered the answer to this very call.
  pub data Called (r : Request) (c : Client k) : Response × Client k → Type 0 where
    answered_call :
        (a : Response) (l sent left : k.State)
        → OnStream c l
        → k.send r l ≡ (true, sent)
        → k.receive r.op sent ≡ (some a, left)
        → Called r c (a, record { connected = true; link = left })
    failed_call :
        (l : k.State)
        → Called r c (errno_response (neg eio), record { connected = false; link = l })

  module _ (r : Request) (c : Client k) (l : k.State) (on : OnStream c l) where
    up : Client k
    up = record { connected = true; link = l }

    received-Called :
        (sent : k.State) (x : Option Response × k.State)
        → k.send r l ≡ (true, sent)
        → k.receive r.op sent ≡ x
        → Called r c (received (with_link up sent) x)
    unfolding up reset
    received-Called sent (none, m) e f = failed_call (k.shut m)
    received-Called sent (some a, m) e f = answered_call a l sent m on e f

    exchanged-Called : (x : Bool × k.State) → k.send r l ≡ x → Called r c (exchanged r up x)
    unfolding up reset
    exchanged-Called (false, m) e = failed_call (k.shut m)
    exchanged-Called (true, m) e = received-Called m (k.receive r.op m) e refl

  dialed-Called :
      (r : Request) (c : Client k) (x : Bool × k.State)
      → c.connected ≡ false
      → k.dial c.link ≡ x
      → Called r c (dialed r c x)
  unfolding up
  dialed-Called r c (false, l) down e =
      subst (λ b. Called r c (errno_response (neg eio), record { connected = b; link = l }))
        (sym down) (failed_call l)
  dialed-Called r c (true, l) down e = exchanged-Called r c l (fresh l down e) (k.send r l) refl

  -- Every call leaves the client with a stream that just delivered an answer, or without one: where the
  -- dialing or the stream failed, the call answers EIO and the next call dials anew.
  pub call-Called : (r : Request) (c : Client k) → Called r c (call r c)
  unfolding call up
  call-Called r c = elim (Bool-cases c.connected) [
    | inl live ↦
        subst (λ b. Called r c (if b then exchange r c else dialed r c (k.dial c.link))) (sym live)
          (subst (λ b. Called r c (exchange r (record c { connected = b }))) (sym live)
            (exchanged-Called r c c.link (kept live) (k.send r c.link) refl))
    | inr down ↦
        subst (λ b. Called r c (if b then exchange r c else dialed r c (k.dial c.link))) (sym down)
          (dialed-Called r c (k.dial c.link) down refl)
  ]

  call-fresh :
      (r : Request) (a : Response) (l : k.State)
      → IsBack k r a
      → (call r (record { connected = false; link = l })).0 ≡ a
  unfolding call
  call-fresh r a l b =
      ap (λ d. (dialed r (record { connected = false; link = l }) d).0) (b.dials l)
      ∙ ap (λ d. (exchanged r (record { connected = true; link = b.fresh l }) d).0) (b.sends l)
      ∙ ap (λ d. (received (record { connected = true; link = b.sent l }) d).0) (b.answers l)

  -- The call got its answer off a stream, and that stream is the client's from then on.
  pub data Answered (r : Request) (c : Client k) (d : Response × Client k) : Type 0 where
    answered :
        (a : Response) (l sent left : k.State)
        → OnStream c l
        → k.send r l ≡ (true, sent)
        → k.receive r.op sent ≡ (some a, left)
        → d ≡ (a, record { connected = true; link = left })
        → Answered r c d

  after-Called :
      (r : Request) (a : Response) (c : Client k) (d : Response × Client k)
      → IsBack k r a
      → Called r c d
      → Answered r c d ⊎ ((d.0 ≡ errno_response (neg eio)) × ((call r d.1).0 ≡ a))
  after-Called r a c d back (answered_call x l m n on e f) = inl (answered x l m n on e f refl)
  after-Called r a c d back (failed_call l) = inr (refl, call-fresh r a l back)

  -- Once the adapter can be reached again, a client is stuck for one call at most, whatever state the
  -- failures before left it in: a call gets the answer that the client's stream, or one that is dialed for
  -- it, delivers once the request is sent on it, and that stream is kept; or it answers EIO and the same
  -- call made again gets the adapter's answer.
  pub call_again-answered :
      (r : Request) (a : Response) (c : Client k)
      → IsBack k r a
      → Answered r c (call r c)
        ⊎ (((call r c).0 ≡ errno_response (neg eio)) × ((call r (call r c).1).0 ≡ a))
  call_again-answered r a c back = after-Called r a c (call r c) back (call-Called r c)
