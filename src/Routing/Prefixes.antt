-- ===== src/Routing/Prefixes.antt =====
-- `matchesAny` on cleaned absolute paths is a question about components.
use remote_adapter.Prelude.{
  ◌≡◌, ◌≢◌, ◌∙◌, ◌↔◌, refl, sym, inl, inr, Bool, true, false, ◌||◌, List, [], ◌∷◌, ◌++◌, Bytes,
  equal, equal_iff, cut_prefix, cut_prefix-append, append-cut_prefix, starts_with, All, arith,
  append_assoc, append-nil, Bool-cases, Option-cases, join,
}
use remote_adapter.Prelude.FilePath.{
  slash, render, SlashFree, flat, join-flat, flat-append, flat_extends, flat-injective, IsName,
  IsName-SlashFree,
}
use remote_adapter.Routing.{matches_any}

-- The components `cs` go through the directory `ps`.
abbrev pub Under : List Bytes → List Bytes → Type 0
Under cs ps = (rest : List Bytes) × (cs ≡ ps ++ rest)

render-flat : (cs : List Bytes) → cs ≢ [] → render true cs ≡ flat cs
unfolding render
render-flat [] ne = absurd (ne refl)
render-flat (c ∷ cs) ne = join-flat c cs

-- The test of one prefix in `matchesAny`.
abbrev pub matches_one : Bytes → Bytes → Bool
matches_one path pre = equal path pre || starts_with (pre ++ (slash ∷ [])) path

pub matches_any-cons :
    (path pre : Bytes) (ps : List Bytes)
    → matches_any path (pre ∷ ps) ≡ (matches_one path pre || matches_any path ps)
unfolding matches_any
matches_any-cons path pre ps = ground arith

or_true : (b : Bool) → (b || true) ≡ true
or_true true = refl
or_true false = refl

module _ (cs ps : List Bytes) (hc : All SlashFree cs) (hp : All SlashFree ps) where
  matches_one→Under : matches_one (flat cs) (flat ps) ≡ true → Under cs ps
  matches_one→Under m = elim (Bool-cases (equal (flat cs) (flat ps))) [
    | inl same ↦ ([], flat-injective ps cs hp hc ((equal_iff _ _).0 same) ∙ sym (append-nil ps))
    | inr differs ↦ elim (Option-cases (cut_prefix (flat ps ++ (slash ∷ [])) (flat cs))) [
      | inl e ↦ cc (rw (differs, e) at m)
      | inr (s, e) ↦
          let (d, ds, more) =
            flat_extends ps cs s hp hc
              (append-cut_prefix _ _ s e ∙ append_assoc (flat ps) (slash ∷ []) s) in
          (d ∷ ds, more)
    ]
  ]

  Under→matches_one : Under cs ps → matches_one (flat cs) (flat ps) ≡ true
  Under→matches_one ([], e) = rw (e ∙ append-nil ps) (rw ((equal_iff (flat ps) (flat ps)).1 refl))
  Under→matches_one (d ∷ ds, e) = rw e (
      rw (flat-append ps (d ∷ ds)) (
        rw (← append_assoc (flat ps) (slash ∷ []) (d ++ flat ds))
          (rw (cut_prefix-append (flat ps ++ (slash ∷ [])) (d ++ flat ds)) (or_true _))))

-- A cleaned absolute path matches a cleaned directory other than the root exactly where its
-- components go through those of the directory.
pub matches_one_iff :
    (cs ps : List Bytes)
    → All IsName cs
    → All IsName ps
    → ps ≢ []
    → (matches_one (render true cs) (render true ps) ≡ true) ↔ Under cs ps
matches_one_iff cs [] hc hp ne = absurd (ne refl)
matches_one_iff [] ([] ∷ ps) hc hp ne = cc (hp.0.1)
matches_one_iff [] ((b ∷ p) ∷ ps) hc hp ne =
    rw (render-flat ((b ∷ p) ∷ ps) ne)
      (unfold render join equal cut_prefix in (λ e. cc e, λ u. cc u.1))
matches_one_iff (c ∷ cs) (p ∷ ps) hc hp ne = rw (render-flat (c ∷ cs) (λ e. cc)) (
    rw (render-flat (p ∷ ps) ne) (
      matches_one→Under (c ∷ cs) (p ∷ ps) (IsName-SlashFree (c ∷ cs) hc)
          (IsName-SlashFree (p ∷ ps) hp),
      Under→matches_one (c ∷ cs) (p ∷ ps) (IsName-SlashFree (c ∷ cs) hc)
          (IsName-SlashFree (p ∷ ps) hp),
    ))

-- The root directory matches no path but itself: "/" and a separator is "//".
pub matches_one_root :
    (cs : List Bytes) → All IsName cs → cs ≢ [] → matches_one (render true cs) (slash ∷ []) ≡ false
matches_one_root [] hc ne = absurd (ne refl)
matches_one_root ([] ∷ cs) hc ne = cc (hc.0.1)
matches_one_root ((b ∷ c) ∷ cs) hc ne =
    rw (render-flat ((b ∷ c) ∷ cs) ne) (unfold equal cut_prefix in ground (arith, hc.0.0.0))
