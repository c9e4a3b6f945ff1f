-- ===== src/Executor/Serve.antt =====
-- internal/executor/executor.go: `Serve`, which hands every stream that it accepts to a goroutine of its
-- own, as steps of the goroutines that serve files.
pub mod Apart
use remote_adapter.Prelude.{ℕ, ◌+◌, ◌≡◌, some, List, [], ◌∷◌}
use remote_adapter.Prelude.Table.{lookup, insert, delete}
use remote_adapter.Protocol.Types.{Request}
use remote_adapter.Executor.Host.{Host}
use remote_adapter.Executor.Fs.{Service, new_service, serve, close_all}

-- The services of the streams that are open, each under the number of its `Accept`, and the host that they
-- share.
pub record Running (h : Host) : Type 0 where
  pub next : ℕ
  pub services : List (ℕ × Service h)
  pub world : h.World

pub data Event : Type 0 where
  accepted ended : ℕ → Event
  asked : ℕ → Request → Event
  -- Another program uses the host.
  elsewhere : Event

module _ {h : Host} where
  abbrev pub at_start : h.World → Running h
  at_start w = record { next = 0; services = []; world = w }

  -- A service finds the host as all streams left it.
  abbrev pub on_host : h.World → Service h → Service h
  on_host w s = record s { world = w }

  -- What the goroutines can do, one request at a time; a stream that ends closes its files.
  pub data Step : Running h → Event → Running h → Type 0 where
    accept :
        (a : Running h)
        → Step a (accepted a.next) (record a {
          next = a.next + 1;
          services = insert a.next (new_service a.world) a.services;
        })
    answer :
        (a : Running h) (i : ℕ) (r : Request) (s : Service h)
        → lookup i a.services ≡ some s
        → Step a (asked i r) (record a {
          services = insert i (serve r (on_host a.world s)).1 a.services;
          world = (serve r (on_host a.world s)).1.world;
        })
    finish :
        (a : Running h) (i : ℕ) (s : Service h)
        → lookup i a.services ≡ some s
        → Step a (ended i) (record a {
          services = delete i a.services;
          world = (close_all (on_host a.world s)).world;
        })
    change : (a : Running h) (w : h.World) → Step a elsewhere (record a { world = w })

  -- The steps from one state to another, the last first.
  pub data Steps (a : Running h) : List Event → Running h → Type 0 where
    stay : Steps a [] a
    go :
        {es : List Event} {b c : Running h} {e : Event}
        → Steps a es b
        → Step b e c
        → Steps a (e ∷ es) c
