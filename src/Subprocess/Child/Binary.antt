-- ===== src/Subprocess/Child/Binary.antt =====
-- Which binary a routed child runs.
use remote_adapter.Prelude.{
  ◌≡◌, ◌⊎◌, ◌∙◌, refl, ap, subst, Bool, true, false, not, ◌&&◌, Option, none, some, List, Bytes,
  equal, equal_iff, Bool-cases, inl, inr,
}
use remote_adapter.Prelude.FilePath.{base, is_empty, is_rooted}
use remote_adapter.Subprocess.Child.{
  Lookups, requested, arg0_base, rg, by_arg0, look_arg0, by_base, resolve, resolve_bin_path,
}

-- Where a binary comes from, given the one requested.
pub data Origin (l : Lookups) (bin arg0 embedded_rg : Bytes) : Bytes → Type 0 where
  as_requested : Origin l bin arg0 embedded_rg bin
  same_name : {p : Bytes} → l.look_path (base bin) ≡ some p → Origin l bin arg0 embedded_rg p
  by_name : {p : Bytes} → l.look_path arg0 ≡ some p → Origin l bin arg0 embedded_rg p
  bundled_rg : arg0 ≡ rg → l.look_path arg0 ≡ none → Origin l bin arg0 embedded_rg embedded_rg

module _ (l : Lookups) (bin arg0 embedded_rg : Bytes) where
  and_left : (a b : Bool) → (a && b) ≡ true → a ≡ true
  and_left true b e = refl
  and_left false b e = cc

  by_arg0-Origin :
      (o : Option Bytes)
      → look_arg0 l arg0 ≡ o
      → Origin l bin arg0 embedded_rg (by_arg0 o arg0 embedded_rg bin)
  by_arg0-Origin (some p) e = by_name (looked (Bool-cases (is_empty arg0)))
    where
      looked : (is_empty arg0 ≡ true) ⊎ (is_empty arg0 ≡ false) → l.look_path arg0 ≡ some p
      looked (inl blank) = cc (rw blank at e)
      looked (inr named) = rw named at e
  by_arg0-Origin none e = elim (Bool-cases (equal arg0 rg && not (is_empty embedded_rg))) [
    | inl ripgrep ↦ rw ripgrep (named ((equal_iff arg0 rg).0 (and_left (equal arg0 rg) _ ripgrep)))
    | inr other ↦ rw other as_requested
  ]
    where
      named : arg0 ≡ rg → Origin l bin arg0 embedded_rg embedded_rg
      named is_rg =
          bundled_rg is_rg (ap l.look_path is_rg ∙ subst (λ a. look_arg0 l a ≡ none) is_rg e)

  by_base-Origin :
      (o : Option Bytes)
      → l.look_path (base bin) ≡ o
      → Origin l bin arg0 embedded_rg (by_base o l arg0 embedded_rg bin)
  by_base-Origin none e = by_arg0-Origin (look_arg0 l arg0) refl
  by_base-Origin (some p) e = elim (Bool-cases (equal p bin)) [
    | inl same ↦ rw same (by_arg0-Origin (look_arg0 l arg0) refl)
    | inr other ↦ rw other (same_name e)
  ]

  resolve-Origin :
      (resolve l arg0 embedded_rg bin ≡ bin)
      ⊎ ((is_rooted bin ≡ true)
          × (l.present bin ≡ false)
          × Origin l bin arg0 embedded_rg (resolve l arg0 embedded_rg bin))
  resolve-Origin = elim (Bool-cases (is_rooted bin)) [
    | inr bare ↦ rw bare (inl refl)
    | inl rooted ↦ elim (Bool-cases (l.present bin)) [
      | inl there ↦ rw (rooted, there) (inl refl)
      | inr missing ↦
          rw (rooted, missing) (inr (refl, refl, by_base-Origin (l.look_path (base bin)) refl))
    ]
  ]

-- The binary that a routed child runs is the one requested, unless that is an absolute path which is
-- missing on this host; then it is what PATH has under the path's own name or under argv[0]'s, or
-- the bundled ripgrep where argv[0] names rg and PATH has none, or still the one requested.
pub resolve_bin_path-Origin :
    (l : Lookups) (path : Bytes) (argv : List Bytes) (embedded_rg : Bytes)
    → let bin = requested path argv in
      let found = resolve_bin_path l path argv embedded_rg in
      (found ≡ bin)
      ⊎ ((is_rooted bin ≡ true)
          × (l.present bin ≡ false)
          × Origin l bin (arg0_base argv) embedded_rg found)
unfolding resolve_bin_path
resolve_bin_path-Origin l path argv embedded_rg =
    resolve-Origin l (requested path argv) (arg0_base argv) embedded_rg
