-- ===== src/Routing/Decision.antt =====
-- What a table decides for an absolute path.
use remote_adapter.Prelude.{
  ◌≡◌, ◌≢◌, ◌↔◌, ◌⊎◌, inl, inr, refl, Bool, true, false, ◌||◌, List, [], ◌∷◌, Bytes, trim_space,
  All, Bool-cases, arith, not, join, equal,
}
use remote_adapter.Prelude.FilePath.{
  slash, is_rooted, is_empty, components, clean, render, components-IsName,
}
use remote_adapter.Routing.{
  remote_allowlist, local_allowlist, clean_prefixes, new_table, matches_any, is_remote,
}
use remote_adapter.Routing.Prefixes.{Under, matches_any-cons, matches_one_iff, matches_one_root}

-- A prefix that names an absolute directory other than the root.
pub record IsDirectory (r : Bytes) : Type 0 where
  pub rooted : is_rooted (trim_space r) ≡ true
  pub below_root : components (trim_space r) ≢ []

-- The path lies at or under one of the directories.
abbrev pub UnderSome : Bytes → List Bytes → Type 0
UnderSome path [] = ⊥
UnderSome path (r ∷ rs) = Under (components path) (components (trim_space r)) ⊎ UnderSome path rs

clean_rooted : (p : Bytes) → is_rooted p ≡ true → clean p ≡ render true (components p)
unfolding clean
clean_rooted p h = rw h

clean_prefixes-cons :
    (r : Bytes) (rs : List Bytes)
    → IsDirectory r
    → clean_prefixes (r ∷ rs) ≡ render true (components (trim_space r)) ∷ clean_prefixes rs
unfolding clean_prefixes
clean_prefixes-cons r rs h = elim (Bool-cases (is_empty (trim_space r))) [
  | inl blank ↦ absurd (ground (arith, h.rooted))
  | inr present ↦ rw present (rw (clean_rooted (trim_space r) h.rooted))
]

or_iff : {A B : Type 0} (a b : Bool) → (a ≡ true) ↔ A → (b ≡ true) ↔ B → ((a || b) ≡ true) ↔ (A ⊎ B)
or_iff true b f g = (λ e. inl (f.0 refl), λ s. refl)
or_iff false b f g = (λ e. inr (g.0 e), elim [ inl a ↦ cc (f.1 a) | inr c ↦ g.1 c ])

not_iff : {A : Type 0} (b : Bool) → (b ≡ true) ↔ A → (not b ≡ false) ↔ A
not_iff true f = (λ e. f.0 refl, λ a. refl)
not_iff false f = (λ e. cc e, λ a. cc (f.1 a))

matches_any_iff :
    (path : Bytes) (rs : List Bytes)
    → All IsDirectory rs
    → (matches_any (render true (components path)) (clean_prefixes rs) ≡ true) ↔ UnderSome path rs
matches_any_iff path [] h = unfold matches_any clean_prefixes in (λ e. cc e, λ u. absurd u)
matches_any_iff path (r ∷ rs) h = rw (clean_prefixes-cons r rs h.0) (
    rw matches_any-cons (
      or_iff _ _
        (matches_one_iff (components path) (components (trim_space r)) (components-IsName path)
          (components-IsName (trim_space r)) h.0.below_root)
        (matches_any_iff path rs h.1)))

-- Under the default policy an absolute path is remote exactly if it lies at or under one of the
-- remote prefixes, component by component, where these are absolute directories below the root.
pub is_remote_allowlist :
    (path : Bytes) (rs ls : List Bytes)
    → is_rooted path ≡ true
    → All IsDirectory rs
    → (is_remote (new_table remote_allowlist rs ls) path ≡ true) ↔ UnderSome path rs
unfolding is_remote new_table
is_remote_allowlist [] rs ls h hs = cc
is_remote_allowlist (c ∷ path) rs ls h hs =
    rw (clean_rooted (c ∷ path) h) (matches_any_iff (c ∷ path) rs hs)

-- Under the default-remote policy an absolute path is local exactly if it lies at or under one of
-- the local prefixes, component by component, where these are absolute directories below the root.
pub is_remote_local_allowlist :
    (path : Bytes) (rs ls : List Bytes)
    → is_rooted path ≡ true
    → All IsDirectory ls
    → (is_remote (new_table local_allowlist rs ls) path ≡ false) ↔ UnderSome path ls
unfolding is_remote new_table
is_remote_local_allowlist [] rs ls h hs = cc
is_remote_local_allowlist (c ∷ path) rs ls h hs =
    rw (clean_rooted (c ∷ path) h) (not_iff _ (matches_any_iff (c ∷ path) ls hs))

clean_prefixes_root : clean_prefixes ((slash ∷ []) ∷ []) ≡ (slash ∷ []) ∷ []
unfolding clean_prefixes trim_space clean join equal
clean_prefixes_root = refl

-- Under the default policy, the remote prefix "/" alone routes no absolute path remote but the root
-- itself.
pub is_remote_root_prefix :
    (path : Bytes) (ls : List Bytes)
    → is_rooted path ≡ true
    → components path ≢ []
    → is_remote (new_table remote_allowlist ((slash ∷ []) ∷ []) ls) path ≡ false
unfolding is_remote new_table
is_remote_root_prefix [] ls h ne = cc
is_remote_root_prefix (c ∷ path) ls h ne = rw clean_prefixes_root (
    rw (clean_rooted (c ∷ path) h) (
      rw matches_any-cons (
        rw (matches_one_root (components (c ∷ path)) (components-IsName (c ∷ path)) ne)
          (unfold matches_any in refl))))
