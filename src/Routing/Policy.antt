-- ===== src/Routing/Policy.antt =====
-- The prefixes of a table as a set: their order, and how often each is given, are forgotten.
use mathlib.Core.Logic.{∥∥₁_elim}
use mathlib.Core.List.{Mem, Memᴰ}
use mathlib.Core.List.Memᴰ
use mathlib.Core.Quot
use mathlib.Core.Quot.{Quot}
use mathlib.Core.Bool.{Bool-set}
use remote_adapter.Prelude.{
  ◌≡◌, ◌∙◌, ◌↔◌, refl, ap, sym, inl, inr, Bool, true, false, ◌||◌, List, [], ◌∷◌, Bytes, trim_space,
  Bool-cases, not, if◌then◌else◌,
}
use remote_adapter.Prelude.FilePath.{clean, is_empty}
use remote_adapter.Routing.{
  Mode, remote_allowlist, local_allowlist, clean_prefixes, new_table, matches_any, is_remote,
}
use remote_adapter.Routing.Prefixes.{matches_one, matches_any-cons}

-- The lists have the same members.
abbrev pub Same : List Bytes → List Bytes → Type 0
Same xs ys = (p : Bytes) → Mem p xs ↔ Mem p ys

-- A prefix as it is given matches the cleaned path; a blank one matches none.
abbrev given_matches : Bytes → Bytes → Bool
given_matches path p =
    if is_empty (trim_space p) then false else matches_one path (clean (trim_space p))

-- Some prefix of the list matches.
any_matches : Bytes → List Bytes → Bool
any_matches path [] = false
any_matches path (p ∷ ps) = given_matches path p || any_matches path ps

step :
    (path p : Bytes) (ps : List Bytes)
    → matches_any path (clean_prefixes (p ∷ ps))
      ≡ (given_matches path p || matches_any path (clean_prefixes ps))
unfolding clean_prefixes
step path p ps = elim (Bool-cases (is_empty (trim_space p))) [
  | inl blank ↦ rw blank refl
  | inr given ↦ rw given (matches_any-cons path (clean (trim_space p)) (clean_prefixes ps))
]

matches_any-given :
    (path : Bytes) (ps : List Bytes) → matches_any path (clean_prefixes ps) ≡ any_matches path ps
unfolding any_matches
matches_any-given path [] = unfold matches_any clean_prefixes in refl
matches_any-given path (p ∷ ps) =
    step path p ps ∙ ap (λ b. given_matches path p || b) (matches_any-given path ps)

or_right : (b : Bool) → (b || true) ≡ true
or_right true = refl
or_right false = refl

-- Matching the list is matching a member of it.
any_matches-Mem :
    (path p : Bytes) (ps : List Bytes)
    → Memᴰ p ps
    → given_matches path p ≡ true
    → any_matches path ps ≡ true
unfolding any_matches
any_matches-Mem path p [] i m = absurd (Memᴰ.not-nil i)
any_matches-Mem path p (x ∷ xs) i m = elim (Memᴰ.cases_cons i) [
  | inl e ↦
      ap (λ q. given_matches path q || any_matches path xs) (sym e)
      ∙ ap (λ b. b || any_matches path xs) m
  | inr j ↦
      ap (λ b. given_matches path x || b) (any_matches-Mem path p xs j m)
      ∙ or_right (given_matches path x)
]

member :
    (path : Bytes) (ps : List Bytes)
    → any_matches path ps ≡ true
    → (p : Bytes) × Memᴰ p ps × (given_matches path p ≡ true)
unfolding any_matches
member path [] e = cc e
member path (q ∷ ps) e = elim (Bool-cases (given_matches path q)) [
  | inl this ↦ (q, Memᴰ.head refl, this)
  | inr other ↦
      let (p, i, m) = member path ps (sym (ap (λ b. b || any_matches path ps) other) ∙ e) in
      (p, Memᴰ.tail i, m)
]

any_matches-Same :
    (path : Bytes) (xs ys : List Bytes)
    → Same xs ys
    → any_matches path xs ≡ true
    → any_matches path ys ≡ true
any_matches-Same path xs ys same e =
    let (p, i, m) = member path xs e in
    ∥∥₁_elim ((same p).0 ∣ i ∣₁) (Bool-set (any_matches path ys) true)
      (λ j. any_matches-Mem path p ys j m)

both_ways : (a b : Bool) → ((a ≡ true) ↔ (b ≡ true)) → a ≡ b
both_ways true b f = sym (f.0 refl)
both_ways false true f = f.1 refl
both_ways false false f = refl

matches_any-Same :
    (path : Bytes) (xs ys : List Bytes)
    → Same xs ys
    → matches_any path (clean_prefixes xs) ≡ matches_any path (clean_prefixes ys)
matches_any-Same path xs ys same =
    matches_any-given path xs
    ∙ both_ways (any_matches path xs) (any_matches path ys) (
      any_matches-Same path xs ys same,
      any_matches-Same path ys xs (λ p. ((same p).1, (same p).0)),
    )
    ∙ sym (matches_any-given path ys)

-- What a table decides depends on which prefixes it is given and not on their order, nor on how often
-- one is given.
pub is_remote-Same :
    (m : Mode) (path : Bytes) (rs ss ls ks : List Bytes)
    → Same rs ss
    → Same ls ks
    → is_remote (new_table m rs ls) path ≡ is_remote (new_table m ss ks) path
unfolding is_remote new_table
is_remote-Same m [] rs ss ls ks same same' = refl
is_remote-Same remote_allowlist (c ∷ path) rs ss ls ks same same' =
    matches_any-Same (clean (c ∷ path)) rs ss same
is_remote-Same local_allowlist (c ∷ path) rs ss ls ks same same' =
    ap not (matches_any-Same (clean (c ∷ path)) ls ks same')

-- The two prefix lists that a table is given, as sets.
abbrev pub SameRules : List Bytes × List Bytes → List Bytes × List Bytes → Type 0
SameRules (rs, ls) (ss, ks) = Same rs ss × Same ls ks

abbrev pub Rules : Type 0
Rules = Quot SameRules

policy_of : Mode → Bytes → List Bytes × List Bytes → Bool
policy_of m path (rs, ls) = is_remote (new_table m rs ls) path

policy_of-SameRules :
    (m : Mode) (path : Bytes) (a b : List Bytes × List Bytes)
    → SameRules a b
    → policy_of m path a ≡ policy_of m path b
unfolding policy_of
policy_of-SameRules m path (rs, ls) (ss, ks) (same, same') =
    is_remote-Same m path rs ss ls ks same same'

-- The side of a path under a policy and two sets of prefixes.
unfoldable pub policy : Mode → Rules → Bytes → Bool
unfolding policy_of policy_of-SameRules
policy m rules path = Quot.lift Bool-set (policy_of m path) (policy_of-SameRules m path) rules

-- A table that is built from two lists of prefixes decides as the policy on their sets.
pub is_remote-policy :
    (m : Mode) (rs ls : List Bytes) (path : Bytes)
    → is_remote (new_table m rs ls) path ≡ policy m (Quot.mk (rs, ls)) path
unfolding policy policy_of
is_remote-policy m rs ls path = refl
