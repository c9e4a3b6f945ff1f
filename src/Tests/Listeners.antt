-- ===== src/Tests/Listeners.antt =====
-- A run of a listener that is closed while a stream waits.
use remote_adapter.Prelude.{ℕ, ◌≡◌, refl, true, List, [], ◌∷◌, arith}
use remote_adapter.Transport.{
  Listener, Event, arrives, queues, resets, accepts, closes, arrive, queue, give_up, accept, close,
  Reached, opened, after,
}
use remote_adapter.Transport.Delivery.{IsDelivered, queued, Reached-IsDelivered}

abbrev history : List (Event ℕ)
history = resets 2 ∷ closes ∷ accepts 1 ∷ queues 1 ∷ arrives 2 ∷ arrives 1 ∷ []

abbrev closed_listener : Listener ℕ
closed_listener = record {
  waiting = [];
  incoming = [];
  closed = true;
  accepted = 1 ∷ [];
  reset = 2 ∷ [];
}

history-Reached : Reached history closed_listener
history-Reached =
    after
      (after
        (after
          (after (after (after opened (arrive 1 _)) (arrive 2 _))
            (queue 1 (2 ∷ []) [] [] [] [] _ (omega arith)))
          (accept 1 (2 ∷ []) [] [] [] _))
        (close _))
      (give_up 2 [] [] [] (1 ∷ []) [])

Reached-IsDelivered_example : IsDelivered history closed_listener
Reached-IsDelivered_example = Reached-IsDelivered history closed_listener history-Reached

queued_run : queued history ≡ 1 ∷ []
unfolding queued
queued_run = refl
