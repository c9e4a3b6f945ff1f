-- ===== src/Transport.antt =====
-- internal/transport/libp2p.go: the listener, whose handlers and `Accept` meet on two channels.
pub mod Delivery
pub mod Refresh
pub mod Libp2p
use remote_adapter.Prelude.{ℕ, ◌<◌, ◌≡◌, Bool, true, false, List, [], ◌∷◌, ◌++◌, length}

-- Libp2pListener: the streams whose handlers wait in their select, the channel `incoming`, and whether
-- the channel `closed` is closed; and what became of the other streams.
pub record Listener (S : Type 0) : Type 0 where
  pub waiting : List S
  pub incoming : List S
  pub closed : Bool
  pub accepted : List S
  pub reset : List S

-- The capacity of `incoming`.
abbrev pub capacity : ℕ
capacity = 32

-- `ListenLibp2p`.
abbrev pub new_listener : {S : Type 0} → Listener S
new_listener = record { waiting = []; incoming = []; closed = false; accepted = []; reset = [] }

pub data Event (S : Type 0) : Type 0 where
  arrives queues resets accepts : S → Event S
  refuses closes : Event S

-- What the goroutines can do, one at a time. A select takes any of its cases that is ready: a handler
-- sends its stream where there is room, or resets it where the listener is closed; `Accept` takes the
-- first stream, or fails where the listener is closed.
pub data Step {S : Type 0} : Listener S → Event S → Listener S → Type 0 where
  arrive : (s : S) (l : Listener S) → Step l (arrives s) (record l { waiting = s ∷ l.waiting })
  queue :
      (s : S) (before behind i a r : List S) (c : Bool)
      → length i < capacity
      → Step
          (record {
            waiting = before ++ (s ∷ behind);
            incoming = i;
            closed = c;
            accepted = a;
            reset = r;
          })
          (queues s)
          (record {
            waiting = before ++ behind;
            incoming = i ++ (s ∷ []);
            closed = c;
            accepted = a;
            reset = r;
          })
  give_up :
      (s : S) (before behind i a r : List S)
      → Step
          (record {
            waiting = before ++ (s ∷ behind);
            incoming = i;
            closed = true;
            accepted = a;
            reset = r;
          })
          (resets s)
          (record {
            waiting = before ++ behind;
            incoming = i;
            closed = true;
            accepted = a;
            reset = s ∷ r;
          })
  accept :
      (s : S) (w i a r : List S) (c : Bool)
      → Step
          (record { waiting = w; incoming = s ∷ i; closed = c; accepted = a; reset = r })
          (accepts s)
          (record { waiting = w; incoming = i; closed = c; accepted = a ++ (s ∷ []); reset = r })
  refuse :
      (w i a r : List S)
      → Step
          (record { waiting = w; incoming = i; closed = true; accepted = a; reset = r })
          refuses
          (record { waiting = w; incoming = i; closed = true; accepted = a; reset = r })
  close : (l : Listener S) → Step l closes (record l { closed = true })

-- The listeners that the goroutines can reach, with what they did, the last first.
pub data Reached {S : Type 0} : List (Event S) → Listener S → Type 0 where
  opened : Reached [] new_listener
  after :
      {es : List (Event S)} {l m : Listener S} {e : Event S}
      → Reached es l
      → Step l e m
      → Reached (e ∷ es) m
