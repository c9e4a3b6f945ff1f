-- ===== src/Transport/Delivery.antt =====
-- What becomes of the streams that reach a listener.
use remote_adapter.Prelude.{
  ℕ, ◌+◌, ◌≤◌, ◌≡◌, ◌∙◌, refl, sym, ap, Bool, false, List, [], ◌∷◌, ◌++◌, length, length-append,
  arith, append_assoc, if◌then◌else◌,
}
use remote_adapter.Transport.{
  Listener, capacity, Event, arrives, queues, resets, accepts, refuses, closes, Step, arrive, queue,
  give_up, accept, refuse, close, Reached, opened, after,
}

-- The streams that were put into the channel, in order.
unfoldable pub queued : {S : Type 0} → List (Event S) → List S
queued [] = []
queued (queues s ∷ es) = queued es ++ (s ∷ [])
queued (arrives s ∷ es) = queued es
queued (resets s ∷ es) = queued es
queued (accepts s ∷ es) = queued es
queued (refuses ∷ es) = queued es
queued (closes ∷ es) = queued es

unfoldable pub arrived : {S : Type 0} → List (Event S) → List S
arrived [] = []
arrived (arrives s ∷ es) = s ∷ arrived es
arrived (queues s ∷ es) = arrived es
arrived (resets s ∷ es) = arrived es
arrived (accepts s ∷ es) = arrived es
arrived (refuses ∷ es) = arrived es
arrived (closes ∷ es) = arrived es

unfoldable pub count : {S : Type 0} → (S → Bool) → List S → ℕ
count p [] = 0
count p (s ∷ ss) = (if p s then 1 else 0) + count p ss

count-append :
    {S : Type 0} (p : S → Bool) (xs ys : List S) → count p (xs ++ ys) ≡ count p xs + count p ys
unfolding count
count-append p [] ys = omega arith
count-append p (x ∷ xs) ys = omega (arith, count-append p xs ys)

-- Of a listener and what was done on it: the channel holds at most its capacity; what was accepted, and
-- then what the channel holds, is what was put into it, in order; every stream is counted once among
-- those that wait, are in the channel, were accepted or were reset; and none is reset before the close.
pub record IsDelivered {S : Type 0} (es : List (Event S)) (l : Listener S) : Type 0 where
  pub bounded : length l.incoming ≤ capacity
  pub ordered : queued es ≡ l.accepted ++ l.incoming
  pub counted :
      (p : S → Bool)
      → count p (arrived es)
        ≡ count p l.waiting + (count p l.incoming + (count p l.accepted + count p l.reset))
  pub reset_closed : l.closed ≡ false → l.reset ≡ []

Step-IsDelivered :
    {S : Type 0} {es : List (Event S)} {l m : Listener S} {e : Event S}
    → Step l e m
    → IsDelivered es l
    → IsDelivered (e ∷ es) m
unfolding queued arrived count
Step-IsDelivered (arrive s l) d = record {
  bounded = d.bounded;
  ordered = d.ordered;
  counted = λ p. omega (arith, d.counted p);
  reset_closed = d.reset_closed;
}
Step-IsDelivered (queue s before behind i a r c room) d = record {
  bounded = omega (arith, length-append i (s ∷ []));
  ordered = ap (λ x. x ++ (s ∷ [])) d.ordered ∙ append_assoc a i (s ∷ []);
  counted = λ p. omega (
    arith,
    d.counted p,
    count-append p before (s ∷ behind),
    count-append p before behind,
    count-append p i (s ∷ []),
  );
  reset_closed = d.reset_closed;
}
Step-IsDelivered (give_up s before behind i a r) d = record {
  bounded = d.bounded;
  ordered = d.ordered;
  counted = λ p.
      omega (arith, d.counted p, count-append p before (s ∷ behind), count-append p before behind);
  reset_closed = λ e. cc e;
}
Step-IsDelivered (accept s w i a r c) d = record {
  bounded = omega (arith, d.bounded);
  ordered = d.ordered ∙ sym (append_assoc a (s ∷ []) i);
  counted = λ p. omega (arith, d.counted p, count-append p a (s ∷ []));
  reset_closed = d.reset_closed;
}
Step-IsDelivered (refuse w i a r) d = record {
  bounded = d.bounded;
  ordered = d.ordered;
  counted = d.counted;
  reset_closed = λ e. cc e;
}
Step-IsDelivered (close l) d = record {
  bounded = d.bounded;
  ordered = d.ordered;
  counted = d.counted;
  reset_closed = λ e. cc e;
}

-- Whatever the handlers, `Accept` and `Close` do, and in whatever order: `Accept` gives the streams in the
-- order in which the handlers sent them, each once; the channel holds 32 at most; no stream is lost, as
-- each that arrived waits, is in the channel, was accepted or was reset; and none is reset before the
-- listener is closed.
pub Reached-IsDelivered :
    {S : Type 0} (es : List (Event S)) (l : Listener S) → Reached es l → IsDelivered es l
unfolding queued arrived count
Reached-IsDelivered [] l opened = record {
  bounded = omega arith;
  ordered = refl;
  counted = λ p. refl;
  reset_closed = λ e. refl;
}
Reached-IsDelivered (e ∷ es) m (after r s) = Step-IsDelivered s (Reached-IsDelivered es _ r)
