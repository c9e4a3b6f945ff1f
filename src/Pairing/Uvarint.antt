-- ===== src/Pairing/Uvarint.antt =====
-- encoding/binary: AppendUvarint and Uvarint on 64-bit words.
use remote_adapter.Prelude.{
  ℕ, zero, suc, ◌+◌, ◌-◌, ◌*◌, ◌/◌, ◌%◌, ◌^◌, ◌<◌, ◌≡◌, ap, Option, none, some, [], ◌∷◌, ◌++◌,
  Bytes, All, ltb, if◌then◌else◌, arith, Bool-cases, inl, inr, lt→ltb, le→ltb, ltb→lt,
}
use mathlib.Core.Option.{map}

-- Groups of seven bits, the lowest first; `k` is the number of groups that can follow, 9 for a uint64.
unfoldable pub put_groups : ℕ → ℕ → Bytes
put_groups zero v = v ∷ []
put_groups (suc k) v =
    let rest = put_groups k (v / 128) in if ltb v 128 then v ∷ [] else (v % 128 + 128) ∷ rest

unfoldable pub put_uvarint : ℕ → Bytes
unfolding put_groups
put_uvarint v = put_groups 9 v

abbrev add_group : ℕ → ℕ × Bytes → ℕ × Bytes
add_group b (v, rest) = (b - 128 + 128 * v, rest)

-- The number, and what follows it; `none` where Uvarint reports too few bytes or an overflow.
unfoldable pub get_groups : ℕ → Bytes → Option (ℕ × Bytes)
get_groups k [] = none
get_groups zero (b ∷ s) = if ltb b 2 then some (b, s) else none
get_groups (suc k) (b ∷ s) = if ltb b 128 then some (b, s) else map (add_group b) (get_groups k s)

unfoldable pub get_uvarint : Bytes → Option (ℕ × Bytes)
unfolding get_groups
get_uvarint s = get_groups 9 s

-- What `k` more groups hold: 2 * 128 ^ k.
abbrev cap : ℕ → ℕ
cap zero = 2
cap (suc k) = 128 * cap k

get_groups-put_groups :
    (k v : ℕ) (rest : Bytes) → v < cap k → get_groups k (put_groups k v ++ rest) ≡ some (v, rest)
unfolding get_groups put_groups
get_groups-put_groups zero v rest h = rw (lt→ltb v 2 h)
get_groups-put_groups (suc k) v rest h = elim (Bool-cases (ltb v 128)) [
  | inl small ↦ rw small (rw small)
  | inr large ↦ rw large (
      rw (le→ltb (v % 128 + 128) 128 (omega arith)) (
        rw (get_groups-put_groups k (v / 128) rest (omega arith))
          (ap (λ n. some (n, rest)) (omega arith))))
]

-- Every 64-bit word is read back, and what follows it is left.
pub get_uvarint-put_uvarint :
    (v : ℕ) (rest : Bytes) → v < 2 ^ 64 → get_uvarint (put_uvarint v ++ rest) ≡ some (v, rest)
unfolding get_uvarint put_uvarint
get_uvarint-put_uvarint v rest h = get_groups-put_groups 9 v rest h

abbrev pub IsByte : ℕ → Type 0
IsByte b = b < 256

put_groups-IsByte : (k v : ℕ) → v < cap k → All IsByte (put_groups k v)
unfolding put_groups
put_groups-IsByte zero v h = (omega arith, tt)
put_groups-IsByte (suc k) v h = elim (Bool-cases (ltb v 128)) [
  | inl small ↦ rw small (omega (arith, ltb→lt v 128 small), tt)
  | inr large ↦ rw large (omega arith, put_groups-IsByte k (v / 128) (omega arith))
]

pub put_uvarint-IsByte : (v : ℕ) → v < 2 ^ 64 → All IsByte (put_uvarint v)
unfolding put_uvarint
put_uvarint-IsByte v h = put_groups-IsByte 9 v h
