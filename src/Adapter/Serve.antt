-- ===== src/Adapter/Serve.antt =====
-- internal/adapter/adapter.go: `Serve`, which hands every connection that it accepts to a goroutine of its
-- own, as steps of these goroutines.
pub mod Valid
pub mod Isolation
use remote_adapter.Prelude.{ℕ, ◌+◌, ◌≡◌, some, List, [], ◌∷◌}
use remote_adapter.Prelude.Table.{lookup, insert, delete}
use remote_adapter.Protocol.Types.{Request}
use remote_adapter.Routing.{Table}
use remote_adapter.Executor.Host.{Host}
use remote_adapter.Adapter.Link.{Link}
use remote_adapter.Adapter.Session.{Session, new_session, handle}

-- The sessions of the connections that are open, each under the number of its `Accept`.
pub record Running (h : Host) (k : Link) : Type 0 where
  pub next : ℕ
  pub sessions : List (ℕ × Session h k)

pub data Event : Type 0 where
  accepted ended : ℕ → Event
  asked : ℕ → Request → Event

module _ {h : Host} {k : Link} where
  abbrev pub at_start : Running h k
  at_start = record { next = 0; sessions = [] }

  -- The session as it finds the host and its link, which the other goroutines, the executor and other
  -- programs use at the same time.
  abbrev pub finds : h.World → k.State → Session h k → Session h k
  finds w l s = record s { local = record s.local { world = w }; link = l }

  -- What the goroutines can do, one request at a time.
  pub data Step (t : Table) : Running h k → Event → Running h k → Type 0 where
    accept :
        (a : Running h k) (w : h.World) (l : k.State)
        → Step t a
            (accepted a.next)
            (record { next = a.next + 1; sessions = insert a.next (new_session w l) a.sessions })
    serve :
        (a : Running h k) (i : ℕ) (r : Request) (s : Session h k) (w : h.World) (l : k.State)
        → lookup i a.sessions ≡ some s
        → Step t a
            (asked i r)
            (record a { sessions = insert i (handle t r (finds w l s)).1 a.sessions })
    finish :
        (a : Running h k) (i : ℕ) (s : Session h k)
        → lookup i a.sessions ≡ some s
        → Step t a (ended i) (record a { sessions = delete i a.sessions })

  -- The steps from one state to another, the last first.
  pub data Steps (t : Table) (a : Running h k) : List Event → Running h k → Type 0 where
    stay : Steps t a [] a
    go :
        {es : List Event} {b c : Running h k} {e : Event}
        → Steps t a es b
        → Step t b e c
        → Steps t a (e ∷ es) c
