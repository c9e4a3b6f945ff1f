-- ===== src/Prelude/Entries.antt =====
-- Single entries of a table: what is there after one was put into it or taken out.
use Prim.Native.Nat.{ℕ}
use mathlib.Core.Path.{◌≡◌, ◌∙◌, ap, sym, subst}
use mathlib.Core.Logic.{◌≢◌, inl, inr}
use mathlib.Core.Bool.{true, false}
use mathlib.Core.List.{List}
use mathlib.Core.Option.{none, some}
use native.Mathlib.Omega.{arith}
use remote_adapter.Prelude.Tests.{◌==◌, if◌then◌else◌, Bool-cases}
use remote_adapter.Prelude.Table.{lookup, insert, delete, lookup-insert, lookup-delete}

pub differ : (i j : ℕ) → i ≢ j → (i == j) ≡ false
differ i j ne = ground arith

pub equal_numbers : (i j : ℕ) → (i == j) ≡ true → i ≡ j
equal_numbers i j e = ground arith

pub flipped : (i j : ℕ) → (i == j) ≡ false → (j == i) ≡ false
flipped i j e = ground arith

module _ {ℓ} {V : Type ℓ} where
  pub some_inj : (u s : V) → some u ≡ some s → u ≡ s
  some_inj u s e = cc e

  pub lookup_same :
      (i j : ℕ) (u : V) (m : List (ℕ × V)) → (i == j) ≡ true → lookup j (insert i u m) ≡ some u
  lookup_same i j u m same = lookup-insert i j u m ∙ ap (λ b. if b then some u else lookup j m) same

  pub lookup_other :
      (i j : ℕ) (u : V) (m : List (ℕ × V)) → (i == j) ≡ false → lookup j (insert i u m) ≡ lookup j m
  lookup_other i j u m other =
      lookup-insert i j u m ∙ ap (λ b. if b then some u else lookup j m) other

  -- An entry of the table after one was put into it.
  pub inserted :
      (P : V → Type 0) (i j : ℕ) (u s : V) (m : List (ℕ × V))
      → P u
      → (lookup j m ≡ some s → P s)
      → lookup j (insert i u m) ≡ some s
      → P s
  inserted P i j u s m put other e = elim (Bool-cases (i == j)) [
    | inl same ↦ subst P (some_inj u s (sym (lookup_same i j u m same) ∙ e)) put
    | inr apart ↦ other (sym (lookup_other i j u m apart) ∙ e)
  ]

  -- An entry of the table before one was taken out of it.
  pub deleted :
      (i j : ℕ) (s : V) (m : List (ℕ × V)) → lookup j (delete i m) ≡ some s → lookup j m ≡ some s
  deleted i j s m e = elim (Bool-cases (i == j)) [
    | inl same ↦
        cc (sym (ap (λ b. if b then none else lookup j m) same) ∙ sym (lookup-delete i j m) ∙ e)
    | inr apart ↦ sym (lookup-delete i j m ∙ ap (λ b. if b then none else lookup j m) apart) ∙ e
  ]

  pub apart :
      (i j : ℕ) (s : V) (m : List (ℕ × V))
      → lookup i m ≡ some s
      → lookup j m ≡ none
      → (i == j) ≡ false
  apart i j s m there absent = elim (Bool-cases (i == j)) [
    | inl same ↦ cc (sym there ∙ ap (λ x. lookup x m) (equal_numbers i j same) ∙ absent)
    | inr differ ↦ differ
  ]

  pub deleted_none : (i j : ℕ) (m : List (ℕ × V)) → lookup j m ≡ none → lookup j (delete i m) ≡ none
  deleted_none i j m absent = elim (Bool-cases (i == j)) [
    | inl same ↦ lookup-delete i j m ∙ ap (λ b. if b then none else lookup j m) same
    | inr differ ↦ lookup-delete i j m ∙ ap (λ b. if b then none else lookup j m) differ ∙ absent
  ]
