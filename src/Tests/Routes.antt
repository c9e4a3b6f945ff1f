-- ===== src/Tests/Routes.antt =====
-- Runs of the routing table.
use mathlib.Core.Logic.{∥∥₁_elim}
use mathlib.Core.List.{Mem, Memᴰ}
use mathlib.Core.List.Memᴰ
use remote_adapter.Routing.Policy.{Same, is_remote-Same}
use remote_adapter.Prelude.{
  inl, inr, Bytes, List, ◌≡◌, ◌↔◌, refl, true, false, [], ◌∷◌, codes, trim_space, equal, cut_prefix,
  join,
}
use remote_adapter.Prelude.FilePath.{clean, components}
use remote_adapter.Routing.{remote_allowlist, clean_prefixes, new_table, matches_any, is_remote}
use remote_adapter.Routing.Decision.{
  IsDirectory, UnderSome, is_remote_allowlist, is_remote_root_prefix,
}

work-IsDirectory : IsDirectory (codes " /work/ ")
unfolding trim_space components equal
work-IsDirectory = record { rooted = refl; below_root = λ e. cc }

is_remote_allowlist_example :
    (is_remote (new_table remote_allowlist (codes " /work/ " ∷ []) []) (codes "/work/../work/a")
      ≡ true)
    ↔ UnderSome (codes "/work/../work/a") (codes " /work/ " ∷ [])
is_remote_allowlist_example =
    is_remote_allowlist (codes "/work/../work/a") (codes " /work/ " ∷ []) [] refl
      (work-IsDirectory, tt)

is_remote_root_prefix_example :
    is_remote (new_table remote_allowlist (codes "/" ∷ []) []) (codes "/etc/passwd") ≡ false
unfolding components equal
is_remote_root_prefix_example = is_remote_root_prefix (codes "/etc/passwd") [] refl (λ e. cc)

-- A sibling that shares a prefix of bytes is not under the prefix.
sibling_is_local :
    is_remote (new_table remote_allowlist (codes "/work" ∷ []) []) (codes "/workshop") ≡ false
unfolding is_remote new_table clean_prefixes matches_any trim_space clean join equal cut_prefix
sibling_is_local = refl

child_is_remote :
    is_remote (new_table remote_allowlist (codes "/work" ∷ []) []) (codes "/work/a/../b") ≡ true
unfolding is_remote new_table clean_prefixes matches_any trim_space clean join equal cut_prefix
child_is_remote = refl

abbrev once : List Bytes
once = codes "/work" ∷ codes "/data" ∷ []

abbrev shuffled : List Bytes
shuffled = codes "/data" ∷ codes "/work" ∷ codes "/data" ∷ []

to_shuffled : (p : Bytes) → Memᴰ p once → Mem p shuffled
to_shuffled p m = elim (Memᴰ.cases_cons m) [
  | inl e ↦ ∣ Memᴰ.tail (Memᴰ.head e) ∣₁
  | inr n ↦ elim (Memᴰ.cases_cons n) [ inl e ↦ ∣ Memᴰ.head e ∣₁ | inr z ↦ absurd (Memᴰ.not-nil z) ]
]

to_once : (p : Bytes) → Memᴰ p shuffled → Mem p once
to_once p m = elim (Memᴰ.cases_cons m) [
  | inl e ↦ ∣ Memᴰ.tail (Memᴰ.head e) ∣₁
  | inr n ↦ elim (Memᴰ.cases_cons n) [
    | inl e ↦ ∣ Memᴰ.head e ∣₁
    | inr l ↦ elim (Memᴰ.cases_cons l) [
      | inl e ↦ ∣ Memᴰ.tail (Memᴰ.head e) ∣₁
      | inr z ↦ absurd (Memᴰ.not-nil z)
    ]
  ]
]

shuffled-Same : Same once shuffled
shuffled-Same p = (λ m. ∥∥₁_elim m (hlevel) (to_shuffled p), λ m. ∥∥₁_elim m (hlevel) (to_once p))

nothing-Same : Same [] []
nothing-Same p = (λ m. m, λ m. m)

is_remote-Same_example :
    is_remote (new_table remote_allowlist once []) (codes "/data/x")
    ≡ is_remote (new_table remote_allowlist shuffled []) (codes "/data/x")
is_remote-Same_example =
    is_remote-Same remote_allowlist (codes "/data/x") once shuffled [] [] shuffled-Same nothing-Same
