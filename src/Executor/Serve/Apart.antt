-- ===== src/Executor/Serve/Apart.antt =====
-- Each stream has a service of its own.
use remote_adapter.Prelude.{
  ℕ, ◌≤◌, ◌≡◌, ◌≢◌, ◌∙◌, ap, sym, subst, inl, inr, none, some, List, [], ◌∷◌, All, arith, ◌==◌,
  if◌then◌else◌, Bool-cases,
}
use remote_adapter.Prelude.Table.{lookup, lookup-delete}
use remote_adapter.Prelude.Entries.{
  lookup_same, lookup_other, some_inj, apart, deleted_none, differ, equal_numbers, flipped,
}
use remote_adapter.Protocol.Types.{Request}
use remote_adapter.Executor.Host.{Host}
use remote_adapter.Executor.Fs.{Service, new_service, serve}
use remote_adapter.Executor.Serve.{
  Running, Event, accepted, ended, asked, elsewhere, on_host, Step, accept, answer, finish, change,
  Steps, stay, go,
}

-- The requests of one stream, the last first.
unfoldable pub own : ℕ → List Event → List Request
own i [] = []
own i (asked n r ∷ es) = let rest = own i es in if n == i then r ∷ rest else rest
own i (accepted n ∷ es) = own i es
own i (ended n ∷ es) = own i es
own i (elsewhere ∷ es) = own i es

abbrev pub GoesOn : ℕ → Event → Type 0
GoesOn i (ended n) = n ≢ i
GoesOn i (asked n r) = Unit {0}
GoesOn i (accepted n) = Unit {0}
GoesOn i elsewhere = Unit {0}

-- One service answers the requests, the last first, on a host that others change between them.
pub data Alone {h : Host} (s : Service h) : List Request → Service h → Type 0 where
  unasked : Alone s [] s
  answered :
      {rs : List Request} {u : Service h} (r : Request) (w : h.World)
      → Alone s rs u
      → Alone s (r ∷ rs) (serve r (on_host w u)).1

module _ {h : Host} where
  -- No stream has a number that is yet to be given.
  abbrev pub IsFresh : Running h → Type 0
  IsFresh a = (i : ℕ) → a.next ≤ i → lookup i a.services ≡ none

  -- Stream `i` is open, and its service answered `rs` alone since it was `s`.
  pub record Projects (i : ℕ) (s : Service h) (rs : List Request) (b : Running h) : Type 0 where
    pub now : Service h
    pub open_at : lookup i b.services ≡ some now
    pub ran : Alone s rs now

  Step-IsFresh : (a b : Running h) (e : Event) → Step a e b → IsFresh a → IsFresh b
  Step-IsFresh a b e (accept x) v i le =
      lookup_other x.next i (new_service x.world) x.services (ground arith) ∙ v i (omega arith)
  Step-IsFresh a b e (answer x i r s live) v j le =
      lookup_other i j (serve r (on_host x.world s)).1 x.services
        (apart i j s x.services live (v j le))
      ∙ v j le
  Step-IsFresh a b e (finish x i s live) v j le = deleted_none i j x.services (v j le)
  Step-IsFresh a b e (change x w) v j le = v j le

  Steps-IsFresh : (a b : Running h) (es : List Event) → Steps a es b → IsFresh a → IsFresh b
  Steps-IsFresh a b es stay v = v
  Steps-IsFresh a c ees (go {es} {b} {e = e} before step) v =
      Step-IsFresh b c e step (Steps-IsFresh a b es before v)

  Step-Projects :
      (i : ℕ) (s : Service h) (a b : Running h) (e : Event) (es : List Event)
      → Step a e b
      → IsFresh a
      → GoesOn i e
      → Projects i s (own i es) a
      → Projects i s (own i (e ∷ es)) b
  unfolding own
  Step-Projects i s a b e es (accept x) v on p = record {
    now = p.now;
    open_at =
        lookup_other x.next i (new_service x.world) x.services
          (flipped i x.next (apart i x.next p.now x.services p.open_at (v x.next (omega arith))))
        ∙ p.open_at;
    ran = p.ran;
  }
  Step-Projects i s a b e es (answer x m r u live) v on p = elim (Bool-cases (m == i)) [
    | inl same ↦
        subst (λ rs. Projects i s rs b) (sym (ap (λ q. if q then r ∷ own i es else own i es) same))
          (record {
            now = (serve r (on_host x.world u)).1;
            open_at = lookup_same m i (serve r (on_host x.world u)).1 x.services same;
            ran =
                subst (λ y. Alone s (r ∷ own i es) (serve r (on_host x.world y)).1)
                  (sym (this (equal_numbers m i same))) (answered r x.world p.ran);
          })
    | inr other ↦
        subst (λ rs. Projects i s rs b) (sym (ap (λ q. if q then r ∷ own i es else own i es) other))
          (record {
            now = p.now;
            open_at = lookup_other m i (serve r (on_host x.world u)).1 x.services other ∙ p.open_at;
            ran = p.ran;
          })
  ]
    where
      this : m ≡ i → u ≡ p.now
      this e = some_inj u p.now (sym live ∙ ap (λ y. lookup y x.services) e ∙ p.open_at)
  Step-Projects i s a b e es (finish x m u live) v on p = record {
    now = p.now;
    open_at =
        lookup-delete m i x.services
        ∙ ap (λ q. if q then none else lookup i x.services) (differ m i on)
        ∙ p.open_at;
    ran = p.ran;
  }
  Step-Projects i s a b e es (change x w) v on p = record {
    now = p.now;
    open_at = p.open_at;
    ran = p.ran;
  }

  Steps-own :
      (i : ℕ) (s : Service h) (a b : Running h) (es : List Event)
      → Steps a es b
      → IsFresh a
      → lookup i a.services ≡ some s
      → All (GoesOn i) es
      → Projects i s (own i es) b
  unfolding own
  Steps-own i s a b es stay v there on = record { now = s; open_at = there; ran = unasked }
  Steps-own i s a c ees (go {es} {b} {e = e} before step) v there on =
      Step-Projects i s b c e es step (Steps-IsFresh a b es before v) on.0
        (Steps-own i s a b es before v there on.1)

  -- A stream begins with a table of its own, which is empty.
  Step-accepted :
      (i : ℕ) (a b : Running h)
      → Step a (accepted i) b
      → lookup i b.services ≡ some (record { next = 1; files = []; world = a.world })
  unfolding new_service
  Step-accepted i a b (accept x) =
      lookup_same x.next x.next (new_service x.world) x.services (ground arith)

  -- Every stream is served as if it were alone: from its `Accept` on, however the requests of all streams
  -- are interleaved, and whichever streams come and go, the service of a stream that goes on began with no
  -- handle, and has answered that stream's own requests, in their order, and nothing else, on a host that
  -- others use in between. Before the `Accept` no stream had the number that it is given.
  pub Steps-Projects :
      (i : ℕ) (a b c : Running h) (es : List Event)
      → IsFresh a
      → Step a (accepted i) b
      → Steps b es c
      → All (GoesOn i) es
      → Projects i (record { next = 1; files = []; world = a.world }) (own i es) c
  Steps-Projects i a b c es v first steps on =
      Steps-own i (record { next = 1; files = []; world = a.world }) b c es steps
        (Step-IsFresh a b (accepted i) first v) (Step-accepted i a b first) on
