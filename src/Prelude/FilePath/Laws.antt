-- ===== src/Prelude/FilePath/Laws.antt =====
-- The components of a path hold no slash, and a cleaned path can be cut at component boundaries only.
use mathlib.Core.Bool.{Bool, true, false, ◌||◌}
use mathlib.Core.List.{List, [], ◌∷◌, ◌++◌, reverse, append_assoc, append-nil, reverse-cons}
use mathlib.Core.Path.{◌≡◌, refl, sym, ap, ◌∙◌}
use mathlib.Core.Logic.{◌≢◌, inl, inr}
use native.Mathlib.Omega.{arith}
use remote_adapter.Prelude.Tests.{◌==◌, Bool-cases, ==_iff}
use remote_adapter.Prelude.Lists.{All}
use remote_adapter.Prelude.Text.{Bytes, equal, join}
use remote_adapter.Prelude.FilePath.Defs.{
  slash, split_from, split, push, push_one, up, is_empty, is_rooted, components, dot, dot_dot,
}

-- No byte of the text is a slash.
abbrev pub SlashFree : Bytes → Type 0
SlashFree s = All (λ c. c ≢ slash) s

-- Each component behind a slash.
abbrev pub flat : List Bytes → Bytes
flat [] = []
flat (c ∷ cs) = slash ∷ (c ++ flat cs)

pub join-flat : (c : Bytes) (cs : List Bytes) → slash ∷ join (slash ∷ []) (c ∷ cs) ≡ flat (c ∷ cs)
unfolding join
join-flat c [] = ap (◌∷◌ slash) (sym (append-nil c))
join-flat c (d ∷ cs) = ap (λ t. slash ∷ (c ++ t)) (join-flat d cs)

pub flat-append : (cs ds : List Bytes) → flat (cs ++ ds) ≡ flat cs ++ flat ds
flat-append [] ds = refl
flat-append (c ∷ cs) ds =
    ap (◌∷◌ slash) (ap (◌++◌ c) (flat-append cs ds) ∙ sym (append_assoc c _ _))

-- Empty, or behind a slash.
abbrev pub AtSlash : Bytes → Type 0
AtSlash [] = Unit
AtSlash (c ∷ s) = c ≡ slash

-- Two texts that agree have the same first component.
pub first_component :
    (p c x y : Bytes)
    → SlashFree p
    → SlashFree c
    → AtSlash x
    → AtSlash y
    → p ++ x ≡ c ++ y
    → (p ≡ c) × (x ≡ y)
first_component [] [] x y hp hc hx hy e = (refl, e)
first_component [] (b ∷ c) [] y hp hc hx hy e = cc
first_component [] (b ∷ c) (s ∷ x) y hp hc hx hy e = absurd (hc.0 (ground arith))
first_component (a ∷ p) [] x [] hp hc hx hy e = cc
first_component (a ∷ p) [] x (s ∷ y) hp hc hx hy e = absurd (hp.0 (ground arith))
first_component (a ∷ p) (b ∷ c) x y hp hc hx hy e =
    let rest = first_component p c x y hp.1 hc.1 hx hy (ground arith) in (ground arith, rest.1)

AtSlash-flat : (cs : List Bytes) → AtSlash (flat cs)
AtSlash-flat [] = tt
AtSlash-flat (c ∷ cs) = refl

AtSlash-flat_append : (cs : List Bytes) (s : Bytes) → AtSlash (flat cs ++ (slash ∷ s))
AtSlash-flat_append [] s = refl
AtSlash-flat_append (c ∷ cs) s = refl

-- A text that goes on with a slash after the path of `ps` is the path of a proper extension of `ps`.
pub flat_extends :
    (ps cs : List Bytes) (s : Bytes)
    → All SlashFree ps
    → All SlashFree cs
    → flat cs ≡ flat ps ++ (slash ∷ s)
    → (d : Bytes) × (ds : List Bytes) × (cs ≡ ps ++ (d ∷ ds))
flat_extends [] [] s hp hc e = cc
flat_extends [] (c ∷ cs) s hp hc e = (c, cs, refl)
flat_extends (p ∷ ps) [] s hp hc e = cc
flat_extends (p ∷ ps) (c ∷ cs) s hp hc e =
    let same =
      first_component c p (flat cs) (flat ps ++ (slash ∷ s)) hc.0 hp.0 (AtSlash-flat cs)
        (AtSlash-flat_append ps s) (cc (append_assoc p (flat ps) (slash ∷ s))) in
    let (d, ds, more) = flat_extends ps cs s hp.1 hc.1 same.1 in (d, ds, cc)

pub flat-injective :
    (ps cs : List Bytes) → All SlashFree ps → All SlashFree cs → flat cs ≡ flat ps → cs ≡ ps
flat-injective [] [] hp hc e = refl
flat-injective [] (c ∷ cs) hp hc e = cc
flat-injective (p ∷ ps) [] hp hc e = cc
flat-injective (p ∷ ps) (c ∷ cs) hp hc e =
    let same =
      first_component c p (flat cs) (flat ps) hc.0 hp.0 (AtSlash-flat cs) (AtSlash-flat ps) (cc) in
    cc (same.0, flat-injective ps cs hp.1 hc.1 same.1)

pub All-append {ℓ} :
    {A : Type ℓ} (P : A → Type 0) (xs ys : List A) → All P xs → All P ys → All P (xs ++ ys)
All-append P [] ys hx hy = hy
All-append P (x ∷ xs) ys hx hy = (hx.0, All-append P xs ys hx.1 hy)

pub All-reverse {ℓ} : {A : Type ℓ} (P : A → Type 0) (xs : List A) → All P xs → All P (reverse xs)
All-reverse P [] h = tt
All-reverse P (x ∷ xs) h =
    rw (reverse-cons x xs) (All-append P (reverse xs) (x ∷ []) (All-reverse P xs h.1) (h.0, tt))

split_from-SlashFree : (acc s : Bytes) → SlashFree acc → All SlashFree (split_from slash acc s)
unfolding split_from
split_from-SlashFree acc [] h = (All-reverse _ acc h, tt)
split_from-SlashFree acc (c ∷ s) h = elim (Bool-cases (c == slash)) [
  | inl at_slash ↦ rw (at_slash, split_from) (All-reverse _ acc h, split_from-SlashFree [] s tt)
  | inr inside ↦
      rw (inside, split_from)
        (split_from-SlashFree (c ∷ acc) s (λ e. cc (inside, (==_iff c slash).1 e), h))
]

-- A component: not empty, and with no slash.
abbrev pub IsName : Bytes → Type 0
IsName c = SlashFree c × (is_empty c ≡ false)

dot_dot-IsName : IsName dot_dot
dot_dot-IsName = ((λ e. omega arith, (λ e. omega arith, tt)), refl)

up-IsName : (rooted : Bool) (kept : List Bytes) → All IsName kept → All IsName (up rooted kept)
up-IsName true [] h = tt
up-IsName false [] h = (dot_dot-IsName, tt)
up-IsName rooted (c ∷ cs) h = elim (Bool-cases (equal c dot_dot)) [
  | inl e ↦ rw (e, up) (dot_dot-IsName, h)
  | inr e ↦ rw (e, up) h.1
]

push_one-IsName :
    (rooted : Bool) (kept : List Bytes) (c : Bytes)
    → All IsName kept
    → SlashFree c
    → All IsName (push_one rooted kept c)
push_one-IsName rooted kept c hk hc = elim (Bool-cases (is_empty c || equal c dot)) [
  | inl skip ↦ rw skip hk
  | inr other ↦ rw other (elim (Bool-cases (equal c dot_dot)) [
    | inl parent ↦ rw parent (up-IsName rooted kept hk)
    | inr name ↦ rw name ((hc, ground arith), hk)
  ])
]

push-IsName :
    (rooted : Bool) (kept cs : List Bytes)
    → All IsName kept
    → All SlashFree cs
    → All IsName (push rooted kept cs)
unfolding push
push-IsName rooted kept [] hk h = hk
push-IsName rooted kept (c ∷ cs) hk h =
    push-IsName rooted (push_one rooted kept c) cs (push_one-IsName rooted kept c hk h.0) h.1

pub components-IsName : (p : Bytes) → All IsName (components p)
unfolding components
components-IsName p =
    All-reverse _ _ (push-IsName (is_rooted p) [] (split slash p) tt (split_from-SlashFree [] p tt))

pub IsName-SlashFree : (cs : List Bytes) → All IsName cs → All SlashFree cs
IsName-SlashFree [] h = tt
IsName-SlashFree (c ∷ cs) h = (h.0.0, IsName-SlashFree cs h.1)
