-- ===== src/Prelude/Table.antt =====
-- Go's map[uint64]T as an association list: a write replaces, and an absent key reads as `none`.
use Prim.Native.Nat.{ℕ, ◌+◌, ◌<◌, ◌≤◌}
use mathlib.Core.Path.{◌≡◌, refl}
use mathlib.Core.List.{List, [], ◌∷◌}
use mathlib.Core.Option.{Option, none, some}
use native.Mathlib.Omega.{arith}
use remote_adapter.Prelude.Tests.{◌==◌, if◌then◌else◌}

module _ {ℓ} {V : Type ℓ} where
  unfoldable pub lookup : ℕ → List (ℕ × V) → Option V
  lookup k [] = none
  lookup k ((j, v) ∷ m) = if j == k then some v else lookup k m

  unfoldable pub delete : ℕ → List (ℕ × V) → List (ℕ × V)
  delete k [] = []
  delete k ((j, v) ∷ m) = let rest = delete k m in if j == k then rest else (j, v) ∷ rest

  unfoldable pub insert : ℕ → V → List (ℕ × V) → List (ℕ × V)
  unfolding delete
  insert k v m = (k, v) ∷ delete k m

  pub lookup-delete :
      (k j : ℕ) (m : List (ℕ × V)) → lookup j (delete k m) ≡ (if k == j then none else lookup j m)
  unfolding lookup delete
  lookup-delete k j [] = ground arith
  lookup-delete k j ((i, v) ∷ m) = ground (arith, lookup-delete k j m)

  pub lookup-insert :
      (k j : ℕ) (v : V) (m : List (ℕ × V))
      → lookup j (insert k v m) ≡ (if k == j then some v else lookup j m)
  unfolding lookup insert
  lookup-insert k j v m = ground (arith, lookup-delete k j m)

  -- Every key is at least 1 and below `n`.
  abbrev pub Below : ℕ → List (ℕ × V) → Type 0
  Below n [] = Unit {0}
  Below n ((k, v) ∷ m) = (1 ≤ k) × (k < n) × Below n m

  pub Below-mono : {n n' : ℕ} (m : List (ℕ × V)) → n ≤ n' → Below n m → Below n' m
  Below-mono [] h b = tt
  Below-mono ((k, v) ∷ m) h b = (b.0, omega arith, Below-mono m h b.2)

  pub delete-Below : (n k : ℕ) (m : List (ℕ × V)) → Below n m → Below n (delete k m)
  unfolding delete
  delete-Below n k [] b = tt
  delete-Below n k ((j, v) ∷ m) b = ground (arith, delete-Below n k m b.2)

  pub lookup_above : (n k : ℕ) (m : List (ℕ × V)) → Below n m → n ≤ k → lookup k m ≡ none
  unfolding lookup
  lookup_above n k [] b h = refl
  lookup_above n k ((j, v) ∷ m) b h = ground (arith, lookup_above n k m b.2)

  pub insert-Below :
      (n : ℕ) (v : V) (m : List (ℕ × V)) → 1 ≤ n → Below n m → Below (n + 1) (insert n v m)
  unfolding insert
  insert-Below n v m h b =
      (h, omega arith, Below-mono (delete n m) (omega arith) (delete-Below n n m b))
