-- ===== src/Adapter/Serve/Valid.antt =====
-- Every session that is being served is valid.
use remote_adapter.Prelude.{
  ℕ, ◌+◌, ◌^◌, ◌≤◌, ◌<◌, ◌≡◌, ◌∙◌, refl, subst, none, some, List, length, arith,
}
use remote_adapter.Prelude.Entries.{lookup_other, inserted, deleted, apart, deleted_none}
use remote_adapter.Prelude.Table.{lookup}
use remote_adapter.Protocol.Types.{Request}
use remote_adapter.Routing.{Table}
use remote_adapter.Executor.Host.{Host}
use remote_adapter.Adapter.Link.{Link}
use remote_adapter.Adapter.Session.{Session, new_session, handle}
use remote_adapter.Adapter.Session.Handles.{IsValid, handle-IsValid, handle-next}
use remote_adapter.Adapter.Serve.{
  Running, Event, at_start, finds, Step, accept, serve, finish, Steps, stay, go,
}

module _ {h : Host} {k : Link} where
  -- Every open connection has an earlier number than the next, and a valid session whose next handle is
  -- at most `n`.
  pub record IsServing (n : ℕ) (a : Running h k) : Type 0 where
    pub fresh : (i : ℕ) → a.next ≤ i → lookup i a.sessions ≡ none
    pub valid : (i : ℕ) (s : Session h k) → lookup i a.sessions ≡ some s → IsValid s × (s.next ≤ n)

  new_session-IsValid : (w : h.World) (l : k.State) → IsValid (new_session {h = h} {k = k} w l)
  unfolding new_session
  new_session-IsValid w l = record { started = omega arith; below = tt }

  pub finds-IsValid :
      (w : h.World) (l : k.State) (s : Session h k) → IsValid s → IsValid (finds w l s)
  finds-IsValid w l s v = record { started = v.started; below = v.below }

  -- Valid, with a handle counter of at most `n`.
  abbrev Counted : ℕ → Session h k → Type 0
  Counted n s = IsValid s × (s.next ≤ n)

  Counted-mono : (n m : ℕ) (s : Session h k) → n ≤ m → Counted n s → Counted m s
  Counted-mono n m s le (v, c) = (v, omega arith)

  handled-Counted :
      (t : Table) (n : ℕ) (r : Request) (s : Session h k)
      → n + 1 < 2 ^ 64
      → Counted n s
      → Counted (n + 1) (handle t r s).1
  handled-Counted t n r s room (v, c) =
      (handle-IsValid t r s v (omega arith), omega (arith, handle-next t r s (omega arith)))

  pub Step-IsServing :
      (t : Table) (n : ℕ) (a b : Running h k) (e : Event)
      → Step t a e b
      → n + 1 < 2 ^ 64
      → IsServing n a
      → IsServing (n + 1) b
  Step-IsServing t n a b e (accept x w l) room v = record {
    fresh = λ i le.
        lookup_other x.next i (new_session w l) x.sessions (ground arith) ∙ v.fresh i (omega arith);
    valid = λ i s e.
        inserted (Counted (n + 1)) x.next i (new_session w l) s x.sessions
          (new_session-IsValid w l, unfold new_session in omega arith)
          (λ there. Counted-mono n (n + 1) s (omega arith) (v.valid i s there)) e;
  }
  Step-IsServing t n a b e (serve x i r s w l live) room v = record {
    fresh = λ j le.
        lookup_other i j (handle t r (finds w l s)).1 x.sessions
          (apart i j s x.sessions live (v.fresh j le))
        ∙ v.fresh j le;
    valid = λ j u e.
        inserted (Counted (n + 1)) i j (handle t r (finds w l s)).1 u x.sessions
          (handled-Counted t n r (finds w l s) (omega arith)
            (finds-IsValid w l s (v.valid i s live).0, (v.valid i s live).1))
          (λ there. Counted-mono n (n + 1) u (omega arith) (v.valid j u there)) e;
  }
  Step-IsServing t n a b e (finish x i s live) room v = record {
    fresh = λ j le. deleted_none i j x.sessions (v.fresh j le);
    valid =
        λ j u e. Counted-mono n (n + 1) u (omega arith) (v.valid j u (deleted i j u x.sessions e));
  }

  -- The sessions stay valid, whatever the connections do, while no session gives out 2^64 handles.
  pub Steps-IsServing :
      (t : Table) (n : ℕ) (a b : Running h k) (es : List Event)
      → Steps t a es b
      → n + length es < 2 ^ 64
      → IsServing n a
      → IsServing (n + length es) b
  Steps-IsServing t n a b es stay room v = subst (λ m. IsServing m a) (omega arith) v
  Steps-IsServing t n a c ees (go {es} {b} {e = e} before step) room v =
      subst (λ m. IsServing m c) (omega arith)
        (Step-IsServing t (n + length es) b c e step (omega arith)
          (Steps-IsServing t n a b es before (omega arith) v))

  at_start-IsServing : IsServing 1 (at_start {h = h} {k = k})
  unfolding lookup
  at_start-IsServing = record { fresh = λ i le. refl; valid = λ i s e. cc e }

  -- Every session that the adapter serves is valid, and its handle counter is within the number of
  -- steps that were taken: whatever the connections do in whatever order, while fewer than 2^64 - 1 steps
  -- were taken since the start.
  pub Steps-IsValid :
      (t : Table) (es : List Event) (b : Running h k) (i : ℕ) (s : Session h k)
      → Steps t at_start es b
      → 1 + length es < 2 ^ 64
      → lookup i b.sessions ≡ some s
      → IsValid s × (s.next ≤ 1 + length es)
  Steps-IsValid t es b i s steps room there =
      (Steps-IsServing t 1 at_start b es steps room at_start-IsServing).valid i s there
