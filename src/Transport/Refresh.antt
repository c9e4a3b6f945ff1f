-- ===== src/Transport/Refresh.antt =====
-- internal/transport/relay_client.go: the loop that keeps a reservation on a relay. The clock is in
-- nanoseconds; an attempt is what `reserveOnce` answers and how long it takes. The loop ends with its
-- context, after the last attempt of the list.
use remote_adapter.Prelude.{
  ℕ, ◌+◌, ◌-◌, ◌*◌, ◌≤◌, ◌<◌, ◌≡◌, refl, suc, ap, sym, subst, List, [], ◌∷◌, length, map, All,
  arith, ltb, if◌then◌else◌,
}

abbrev pub second : ℕ
second = 1_000_000_000

abbrev pub minute : ℕ
minute = 60 * second

-- The timeout of `reserveOnce`.
abbrev pub attempt_limit : ℕ
attempt_limit = 30 * second

pub data Attempt : Type 0 where
  refused : ℕ → Attempt
  granted : ℕ → ℕ → Attempt

-- How long the loop sleeps: a time that is past, and one less than five minutes away, leave less than
-- the minute that it sleeps at least.
unfoldable pub wait : ℕ → ℕ → ℕ
wait now expiry = let left = expiry - now - 5 * minute in if ltb left minute then minute else left

-- What `expiry` is after an attempt that began at `at`, and when the attempt is over.
abbrev pub expiry_after : ℕ → Attempt → ℕ
expiry_after at (refused took) = at + took + 2 * minute
expiry_after at (granted took expiry) = expiry

abbrev pub over : ℕ → Attempt → ℕ
over at (refused took) = at + took
over at (granted took expiry) = at + took

-- When the attempts begin.
unfoldable pub refresh_loop : ℕ → ℕ → List Attempt → List ℕ
unfolding wait
refresh_loop now expiry [] = []
refresh_loop now expiry (a ∷ tries) =
    let at = now + wait now expiry in at ∷ refresh_loop (over at a) (expiry_after at a) tries

-- From `now` on, each attempt begins a minute or more after the one before.
abbrev pub Spaced : ℕ → List ℕ → Type 0
Spaced now [] = Unit {0}
Spaced now (at ∷ rest) = (now + minute ≤ at) × Spaced at rest

wait_at_least : (now expiry : ℕ) → minute ≤ wait now expiry
unfolding wait
wait_at_least now expiry = ground arith

Spaced-mono : (now now' : ℕ) (rest : List ℕ) → now ≤ now' → Spaced now' rest → Spaced now rest
Spaced-mono now now' [] le s = tt
Spaced-mono now now' (at ∷ rest) le (h, s) = (omega arith, s)

-- A relay is never asked more than once a minute, whatever it answers.
pub refresh_loop-Spaced :
    (now expiry : ℕ) (tries : List Attempt) → Spaced now (refresh_loop now expiry tries)
unfolding refresh_loop
refresh_loop-Spaced now expiry [] = tt
refresh_loop-Spaced now expiry (a ∷ tries) =
    let at = now + wait now expiry in
    let rest = refresh_loop (over at a) (expiry_after at a) tries in
    (
      omega (arith, wait_at_least now expiry),
      Spaced-mono at (over at a) rest (over_later at a)
          (refresh_loop-Spaced (over at a) (expiry_after at a) tries),
    )
  where
    over_later : (at : ℕ) (a : Attempt) → at ≤ over at a
    over_later at (refused took) = omega arith
    over_later at (granted took e) = omega arith

wait_early :
    (now expiry : ℕ) → now + 6 * minute ≤ expiry → now + wait now expiry + 5 * minute ≡ expiry
unfolding wait
wait_early now expiry h = ground arith

wait_again : (now : ℕ) → wait now (now + 2 * minute) ≡ minute
unfolding wait
wait_again now = ground arith

length-refresh_loop :
    (ts : List ℕ) (now expiry : ℕ) → length (refresh_loop now expiry (map refused ts)) ≡ length ts
unfolding refresh_loop
length-refresh_loop [] now expiry = refl
length-refresh_loop (t ∷ ts) now expiry =
    let at = now + wait now expiry in
    ap suc (length-refresh_loop ts (over at (refused t)) (expiry_after at (refused t)))

-- Retries, each a minute after the last was refused.
retries :
    (now deadline : ℕ) (ts : List ℕ)
    → All (λ t. t ≤ attempt_limit) ts
    → now + length ts * (minute + attempt_limit) < deadline + attempt_limit
    → All (λ at. at < deadline) (refresh_loop now (now + 2 * minute) (map refused ts))
unfolding refresh_loop
retries now deadline [] quick h = tt
retries now deadline (t ∷ ts) quick h = (
  omega (arith, wait_again now),
  subst
      (λ w.
        All (λ at. at < deadline)
          (refresh_loop (now + w + t) (now + w + t + 2 * minute) (map refused ts)))
      (sym (wait_again now))
      (retries (now + minute + t) deadline ts quick.1 (omega (arith, quick.0))),
)

-- The first attempt, if there is one, begins five minutes before the time, to the nanosecond.
abbrev pub BeginsAhead : ℕ → List ℕ → Type 0
BeginsAhead expiry [] = Unit {0}
BeginsAhead expiry (at ∷ rest) = at + 300 * 1_000_000_000 ≡ expiry

-- A reservation is refreshed in time: where it lasts six minutes or more from now, the first attempt
-- begins exactly five minutes before it expires, and the next three, where those before them were
-- refused within their timeout, begin before it expires too; there is an attempt for each that is
-- refused.
pub refresh_loop-in_time :
    (now expiry : ℕ) (ts : List ℕ)
    → now + 6 * minute ≤ expiry
    → length ts ≤ 4
    → All (λ t. t ≤ attempt_limit) ts
    → BeginsAhead expiry (refresh_loop now expiry (map refused ts))
      × All (λ at. at < expiry) (refresh_loop now expiry (map refused ts))
      × (length (refresh_loop now expiry (map refused ts)) ≡ length ts)
unfolding refresh_loop
refresh_loop-in_time now expiry [] lasting few quick = (tt, tt, refl)
refresh_loop-in_time now expiry (t ∷ ts) lasting few quick = (
  omega (arith, wait_early now expiry lasting),
  (
    omega (arith, wait_early now expiry lasting),
    retries (now + wait now expiry + t) expiry ts quick.1
        (omega (arith, quick.0, wait_early now expiry lasting)),
  ),
  ap suc (length-refresh_loop ts _ _),
)
