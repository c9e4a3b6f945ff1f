-- ===== src/Prelude/Text.antt =====
-- Go strings and byte slices as lists of bytes, with what the repository uses of package strings.
use Prim.Native.Nat.{ℕ}
use Prim.Native.Char.{code}
use Prim.Native.String.{String}
use mathlib.Core.Path.{◌≡◌, refl}
use mathlib.Core.Logic.{◌↔◌}
use mathlib.Core.Bool.{Bool, true, false, ◌&&◌, ◌||◌}
use mathlib.Core.List.{List, [], ◌∷◌, ◌++◌}
use mathlib.Core.List
use mathlib.Core.Option.{Option, none, some}
use native.Mathlib.Omega.{arith}
use remote_adapter.Prelude.Tests.{◌==◌, if◌then◌else◌}

abbrev pub Bytes : Type 0
Bytes = List ℕ

-- The bytes of a literal; all literals here are ASCII.
abbrev pub codes : String → Bytes
codes String.[] = []
codes (String.◌∷◌ c s) = code c ∷ codes s

unfoldable pub equal : Bytes → Bytes → Bool
equal [] [] = true
equal (x ∷ xs) (y ∷ ys) = x == y && equal xs ys
equal _ _ = false

pub equal_iff : (s t : Bytes) → (equal s t ≡ true) ↔ (s ≡ t)
unfolding equal
equal_iff (c ∷ s) (d ∷ t) = ground (arith, equal_iff s t)
equal_iff _ _ = ground arith

-- strings.CutPrefix: what follows the prefix, if it is there.
unfoldable pub cut_prefix : Bytes → Bytes → Option Bytes
cut_prefix [] s = some s
cut_prefix (x ∷ pre) [] = none
cut_prefix (x ∷ pre) (y ∷ s) = if x == y then cut_prefix pre s else none

abbrev pub is_some {ℓ} : {A : Type ℓ} → Option A → Bool
is_some none = false
is_some (some a) = true

-- strings.HasPrefix, its arguments swapped.
abbrev pub starts_with : Bytes → Bytes → Bool
starts_with pre s = is_some (cut_prefix pre s)

pub cut_prefix-append : (pre s : Bytes) → cut_prefix pre (pre ++ s) ≡ some s
unfolding cut_prefix
cut_prefix-append [] s = refl
cut_prefix-append (x ∷ pre) s = ground (arith, cut_prefix-append pre s)

pub append-cut_prefix : (pre s rest : Bytes) → cut_prefix pre s ≡ some rest → s ≡ pre ++ rest
unfolding cut_prefix
append-cut_prefix [] s rest e = ground arith
append-cut_prefix (x ∷ pre) [] rest e = cc
append-cut_prefix (x ∷ pre) (y ∷ s) rest e = ground (arith, append-cut_prefix pre s rest)

-- The white space of strings.TrimSpace in ASCII; that of other scripts is not told apart from letters.
abbrev pub is_space : ℕ → Bool
is_space c = c == 32 || c == 9 || c == 10 || c == 11 || c == 12 || c == 13

unfoldable pub trim_left : (ℕ → Bool) → Bytes → Bytes
trim_left p [] = []
trim_left p (c ∷ s) = if p c then trim_left p s else c ∷ s

unfoldable pub trim_space : Bytes → Bytes
unfolding trim_left
trim_space s = List.reverse (trim_left is_space (List.reverse (trim_left is_space s)))

-- strings.Join.
unfoldable pub join : Bytes → List Bytes → Bytes
join sep [] = []
join sep (s ∷ []) = s
join sep (s ∷ t ∷ ss) = s ++ (sep ++ join sep (t ∷ ss))
