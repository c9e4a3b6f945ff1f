-- ===== src/Prelude/Int.antt =====
-- Signed integers, and Go's conversions between int32, int64 and the unsigned words of their width.
use Prim.Native.Nat.{ℕ, zero, suc, ◌+◌, ◌-◌, ◌%◌, ◌<◌}
use mathlib.Core.Path.{◌≡◌}
use mathlib.Core.Bool.{Bool, false}
use native.Mathlib.Omega.{arith}
use native.Mathlib.Nat.{mod-eq_of_lt}
use remote_adapter.Prelude.Tests.{ltb, ◌==◌, if◌then◌else◌}

-- `negsuc n` is -(n + 1).
pub data ℤ : Type 0 where
  pos : ℕ → ℤ
  negsuc : ℕ → ℤ

-- `-int32(e)` for an error number.
abbrev pub neg : ℕ → ℤ
neg zero = pos 0
neg (suc n) = negsuc n

abbrev pub is_zero : ℤ → Bool
is_zero (pos n) = n == 0
is_zero (negsuc n) = false

-- Two's complement: the word of modulus `m` with the bits of an integer, and back, where `h` is half of `m`.
abbrev pub to_word : ℕ → ℤ → ℕ
to_word m (pos n) = n % m
to_word m (negsuc n) = m - 1 - n % m

abbrev pub of_word : ℕ → ℕ → ℕ → ℤ
of_word m h u = if ltb u h then pos u else negsuc (m - 1 - u)

-- Go's int32 of an int.
abbrev pub to_int32 : ℤ → ℤ
to_int32 z = of_word 4_294_967_296 2_147_483_648 (to_word 4_294_967_296 z)

-- The integers that a signed word with `h` non-negative values holds.
abbrev pub Fits : ℕ → ℤ → Type 0
Fits h (pos n) = n < h
Fits h (negsuc n) = n < h

pub of_word-to_word : (m h : ℕ) (z : ℤ) → m ≡ h + h → Fits h z → of_word m h (to_word m z) ≡ z
of_word-to_word m h (pos n) e f = ground (arith, mod-eq_of_lt {n = n} {m = m} (omega arith))
of_word-to_word m h (negsuc n) e f = ground (arith, mod-eq_of_lt {n = n} {m = m} (omega arith))

pub to_word_lt : (m : ℕ) (z : ℤ) → 0 < m → to_word m z < m
to_word_lt m (pos n) h = ground arith
to_word_lt m (negsuc n) h = ground arith
