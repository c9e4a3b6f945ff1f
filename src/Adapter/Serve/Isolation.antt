-- ===== src/Adapter/Serve/Isolation.antt =====
-- The connections do not disturb each other.
use remote_adapter.Prelude.{
  ℕ, ◌+◌, ◌^◌, ◌<◌, ◌≡◌, ◌≢◌, ◌⊎◌, ◌∙◌, ap, sym, inl, inr, none, some, List, [], ◌∷◌, subst, length,
  All, arith, ◌==◌, if◌then◌else◌, Bool-cases,
}
use remote_adapter.Prelude.Table.{lookup, lookup-delete}
use remote_adapter.Protocol.Types.{Request}
use remote_adapter.Routing.{Table}
use remote_adapter.Executor.Host.{Host}
use remote_adapter.Adapter.Link.{Link}
use remote_adapter.Adapter.Session.{Session, HandleRef, new_session, handle, on_side}
use remote_adapter.Adapter.Session.Handles.{handle_keeps_ref}
use remote_adapter.Adapter.Session.Lifetime.{Spares, Uses, handle-use}
use remote_adapter.Adapter.Serve.{
  Running, Event, accepted, ended, asked, finds, Step, accept, serve, finish, Steps, stay, go,
}
use remote_adapter.Prelude.Entries.{
  lookup_same, lookup_other, some_inj, apart, differ, equal_numbers, flipped,
}
use remote_adapter.Adapter.Serve.Valid.{IsServing, finds-IsValid, Steps-IsServing}

-- The event neither ends connection `i` nor has it close handle `j`.
abbrev pub SparesHandle : ℕ → ℕ → Event → Type 0
SparesHandle i j (accepted n) = Unit {0}
SparesHandle i j (ended n) = n ≢ i
SparesHandle i j (asked n r) = (n ≢ i) ⊎ Spares j r

unless_other : {A : Type 0} (m i : ℕ) → m ≡ i → (m ≢ i) ⊎ A → A
unless_other m i e (inl ne) = absurd (ne e)
unless_other m i e (inr a) = a

-- The requests of one connection, the last first.
unfoldable pub own : ℕ → List Event → List Request
own i [] = []
own i (asked n r ∷ es) = let rest = own i es in if n == i then r ∷ rest else rest
own i (accepted n ∷ es) = own i es
own i (ended n ∷ es) = own i es

module _ {h : Host} {k : Link} where
  -- One session handles the requests, the last first, over a host and a link that others use between them.
  pub data Alone (t : Table) (s : Session h k) : List Request → Session h k → Type 0 where
    unasked : Alone t s [] s
    answered :
        {rs : List Request} {u : Session h k} (r : Request) (w : h.World) (l : k.State)
        → Alone t s rs u
        → Alone t s (r ∷ rs) (handle t r (finds w l u)).1

  -- Connection `i` is open, its session has handled `rs` alone since it was `s`, and its handle `j` stands
  -- for `ref`.
  record Carries (t : Table) (i j : ℕ) (ref : HandleRef) (s : Session h k) (rs : List Request)
      (a : Running h k) : Type 0 where
    session : Session h k
    open_at : lookup i a.sessions ≡ some session
    stands : lookup j session.handles ≡ some ref
    ran : Alone t s rs session

  Step-Carries :
      (t : Table) (n : ℕ) (a b : Running h k) (e : Event) (es : List Event) (i j : ℕ)
      (ref : HandleRef) (s0 : Session h k)
      → Step t a e b
      → IsServing n a
      → SparesHandle i j e
      → Carries t i j ref s0 (own i es) a
      → Carries t i j ref s0 (own i (e ∷ es)) b
  unfolding own
  Step-Carries t n a b e es i j ref s0 (accept x w l) v spared held = record {
    session = held.session;
    open_at =
        lookup_other x.next i (new_session w l) x.sessions (
          flipped i x.next
            (apart i x.next held.session x.sessions held.open_at (v.fresh x.next (omega arith))))
        ∙ held.open_at;
    stands = held.stands;
    ran = held.ran;
  }
  Step-Carries t n a b e es i j ref s0 (serve x m r s w l live) v spared held =
      elim (Bool-cases (m == i)) [
        | inl same ↦
            subst (λ rs. Carries t i j ref s0 rs b)
              (sym (ap (λ q. if q then r ∷ own i es else own i es) same))
              (record {
                session = (handle t r (finds w l s)).1;
                open_at = lookup_same m i (handle t r (finds w l s)).1 x.sessions same;
                stands =
                    handle_keeps_ref t r (finds w l s) j ref
                      (finds-IsValid w l s (v.valid m s live).0)
                      (ap (λ u. lookup j u.handles) (this (equal_numbers m i same)) ∙ held.stands)
                      (unless_other m i (equal_numbers m i same) spared);
                ran =
                    subst (λ u. Alone t s0 (r ∷ own i es) (handle t r (finds w l u)).1)
                      (sym (this (equal_numbers m i same))) (answered r w l held.ran);
              })
        | inr other ↦
            subst (λ rs. Carries t i j ref s0 rs b)
              (sym (ap (λ q. if q then r ∷ own i es else own i es) other))
              (record {
                session = held.session;
                open_at =
                    lookup_other m i (handle t r (finds w l s)).1 x.sessions other ∙ held.open_at;
                stands = held.stands;
                ran = held.ran;
              })
      ]
    where
      this : m ≡ i → s ≡ held.session
      this e = some_inj s held.session (sym live ∙ ap (λ y. lookup y x.sessions) e ∙ held.open_at)
  Step-Carries t n a b e es i j ref s0 (finish x m s live) v spared held = record {
    session = held.session;
    open_at =
        lookup-delete m i x.sessions
        ∙ ap (λ b. if b then none else lookup i x.sessions) (differ m i spared)
        ∙ held.open_at;
    stands = held.stands;
    ran = held.ran;
  }

  Steps-Carries :
      (t : Table) (n : ℕ) (a b : Running h k) (es : List Event) (i j : ℕ) (ref : HandleRef)
      (s0 : Session h k)
      → Steps t a es b
      → n + length es < 2 ^ 64
      → IsServing n a
      → All (SparesHandle i j) es
      → lookup i a.sessions ≡ some s0
      → lookup j s0.handles ≡ some ref
      → Carries t i j ref s0 (own i es) b
  unfolding own
  Steps-Carries t n a b es i j ref s0 stay room v spared there stands = record {
    session = s0;
    open_at = there;
    stands = stands;
    ran = unasked;
  }
  Steps-Carries t n a c ees i j ref s0 (go {es} {b} {e = e} before step) room v spared there
        stands =
      Step-Carries t (n + length es) b c e es i j ref s0 step
        (Steps-IsServing t n a b es before (omega arith) v) spared.0
        (Steps-Carries t n a b es i j ref s0 before (omega arith) v spared.1 there stands)

  -- The connections do not disturb each other: however the requests of all connections are interleaved, and
  -- whichever connections come and go, the session of a connection that goes on has handled that
  -- connection's own requests, in their order, and nothing else, over a host and a link that others use in
  -- between. And a read or a write of a handle that it holds, and did not close, still goes to the
  -- same handle of the same side. The sessions are valid, and no handle counter wraps on the way.
  pub Steps-keeps_handle :
      (t : Table) (n : ℕ) (a b : Running h k) (es : List Event) (i j : ℕ) (ref : HandleRef)
      (s0 : Session h k) (q : Request) (w : h.World) (l : k.State)
      → Steps t a es b
      → n + length es < 2 ^ 64
      → IsServing n a
      → All (SparesHandle i j) es
      → lookup i a.sessions ≡ some s0
      → lookup j s0.handles ≡ some ref
      → Uses q
      → q.handle ≡ j
      → (s : Session h k) × (lookup i b.sessions ≡ some s)
        × Alone t s0 (own i es) s
        × (handle t q (finds w l s)
            ≡ on_side ref.remote (record q { handle = ref.real }) (finds w l s))
  Steps-keeps_handle t n a b es i j ref s0 q w l steps room v spared there stands uses e =
      let kept = Steps-Carries t n a b es i j ref s0 steps room v spared there stands in
      (
        kept.session,
        kept.open_at,
        kept.ran,
        handle-use t q (finds w l kept.session) uses
            (ap (λ x. lookup x kept.session.handles) e ∙ kept.stands),
      )
