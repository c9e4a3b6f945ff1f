-- ===== src/Subprocess/Child/Environment.antt =====
-- The environment of a routed child.
use remote_adapter.Prelude.{
  ◌≡◌, ◌≢◌, ◌||◌, refl, ap, is_some, starts_with, cut_prefix-append, codes, Bool, true, false, none,
  some, List, [], ◌∷◌, ◌++◌, Bytes, cut_prefix, Option-cases, Bool-cases, inl, inr, ◌⊎◌, All,
}
use remote_adapter.Prelude.FilePath.{is_empty}
use remote_adapter.Subprocess.Child.{
  path_key, with_dir, append_to, append_path, is_injected, scrub_injection_env, base_env, marker,
  child_env,
}

-- The values of the PATH entries, and the entries that are none.
unfoldable pub path_values : List Bytes → List Bytes
path_values [] = []
path_values (kv ∷ env) = elim (cut_prefix path_key kv) [
  | none ↦ path_values env
  | some v ↦ v ∷ path_values env
]

unfoldable pub other_entries : List Bytes → List Bytes
other_entries [] = []
other_entries (kv ∷ env) = elim (cut_prefix path_key kv) [
  | none ↦ kv ∷ other_entries env
  | some v ↦ other_entries env
]

-- The directory goes after what is on the path.
abbrev pub extended : Bytes → Bytes → Bytes
extended dir [] = dir
extended dir (c ∷ v) = (c ∷ v) ++ (b':' ∷ dir)

unfoldable pub extend_all : Bytes → Bool → List Bytes → List Bytes
extend_all dir true [] = []
extend_all dir false [] = dir ∷ []
extend_all dir found (v ∷ vs) = extended dir v ∷ extend_all dir true vs

cut_with_dir : (dir v : Bytes) → cut_prefix path_key (with_dir dir v) ≡ some (extended dir v)
unfolding cut_prefix
cut_with_dir dir [] = refl
cut_with_dir dir (c ∷ v) = refl

extend_all-cons :
    (dir : Bytes) (found : Bool) (v : Bytes) (vs : List Bytes)
    → extend_all dir found (v ∷ vs) ≡ extended dir v ∷ extend_all dir true vs
unfolding extend_all
extend_all-cons dir true v vs = refl
extend_all-cons dir false v vs = refl

append_to-path :
    (dir : Bytes) (found : Bool) (kv v : Bytes) (env : List Bytes)
    → cut_prefix path_key kv ≡ some v
    → append_to dir found (kv ∷ env) ≡ with_dir dir v ∷ append_to dir true env
unfolding append_to
append_to-path dir true kv v env e = rw e
append_to-path dir false kv v env e = rw e

append_to-other :
    (dir : Bytes) (found : Bool) (kv : Bytes) (env : List Bytes)
    → cut_prefix path_key kv ≡ none
    → append_to dir found (kv ∷ env) ≡ kv ∷ append_to dir found env
unfolding append_to
append_to-other dir true kv env e = rw e
append_to-other dir false kv env e = rw e

view-path :
    (kv v : Bytes) (env : List Bytes)
    → cut_prefix path_key kv ≡ some v
    → (path_values (kv ∷ env) ≡ v ∷ path_values env)
      × (other_entries (kv ∷ env) ≡ other_entries env)
unfolding path_values other_entries cut_prefix
view-path kv v env e = rw e (refl, refl)

view-other :
    (kv : Bytes) (env : List Bytes)
    → cut_prefix path_key kv ≡ none
    → (path_values (kv ∷ env) ≡ path_values env)
      × (other_entries (kv ∷ env) ≡ kv ∷ other_entries env)
unfolding path_values other_entries cut_prefix
view-other kv env e = rw e (refl, refl)

append_to_end :
    (dir : Bytes) (found : Bool)
    → (path_values (append_to dir found []) ≡ extend_all dir found [])
      × (other_entries (append_to dir found []) ≡ [])
unfolding append_to path_values other_entries extend_all cut_prefix
append_to_end dir true = (refl, refl)
append_to_end dir false = (refl, refl)

append_to_view :
    (dir : Bytes) (found : Bool) (env : List Bytes)
    → (path_values (append_to dir found env) ≡ extend_all dir found (path_values env))
      × (other_entries (append_to dir found env) ≡ other_entries env)
append_to_view dir found [] = unfold path_values other_entries in append_to_end dir found
append_to_view dir found (kv ∷ env) = elim (Option-cases (cut_prefix path_key kv)) [
  | inl e ↦
      let later = append_to_view dir found env in
      rw (append_to-other dir found kv env e) (
        rw
          (
            (view-other kv env e).0,
            (view-other kv env e).1,
            (view-other kv (append_to dir found env) e).0,
            (view-other kv (append_to dir found env) e).1,
          )
          (later.0, ap (◌∷◌ kv) later.1))
  | inr (v, e) ↦
      let later = append_to_view dir true env in
      let new =
        view-path (with_dir dir v) (extended dir v) (append_to dir true env) (cut_with_dir dir v) in
      rw (append_to-path dir found kv v env e) (
        rw ((view-path kv v env e).0, (view-path kv v env e).1, new.0, new.1, extend_all-cons)
          (ap (◌∷◌ (extended dir v)) later.0, later.1))
]

-- A directory that is not empty and is added to PATH goes after what the first PATH entry has, and
-- after each other; where there is no PATH entry it becomes one. Every other entry of the
-- environment is kept, in order.
pub append_path_view :
    (env : List Bytes) (dir : Bytes)
    → is_empty dir ≡ false
    → (path_values (append_path env dir) ≡ extend_all dir false (path_values env))
      × (other_entries (append_path env dir) ≡ other_entries env)
unfolding append_path
append_path_view env [] h = cc
append_path_view env (c ∷ dir) h = append_to_view (c ∷ dir) false env

-- The entry begins otherwise.
abbrev pub BeginsNot : Bytes → Bytes → Type 0
BeginsNot name kv = (value : Bytes) → kv ≢ name ++ value

-- No injected variable but the marker of the executor.
abbrev pub Clean : Bytes → Type 0
Clean kv =
    (BeginsNot (codes "DYLD_INSERT_LIBRARIES=") kv × BeginsNot (codes "RCC_") kv)
    ⊎ (kv ≡ codes "RCC_EXECUTOR=1")

starts_with-BeginsNot : (name kv : Bytes) → starts_with name kv ≡ false → BeginsNot name kv
starts_with-BeginsNot name kv e value same = cc (e, same, ap is_some (cut_prefix-append name value))

is_injected-Clean : (kv : Bytes) → is_injected kv ≡ false → Clean kv
is_injected-Clean kv e =
    let (a, b) = neither (starts_with (codes "DYLD_INSERT_LIBRARIES=") kv) _ e in
    inl (starts_with-BeginsNot _ kv a, starts_with-BeginsNot _ kv b)
  where
    neither : (a b : Bool) → (a || b) ≡ false → (a ≡ false) × (b ≡ false)
    neither false false e = (refl, refl)
    neither true b e = cc
    neither false true e = cc

scrub-Clean : (env : List Bytes) → All Clean (scrub_injection_env env ++ (marker ∷ []))
unfolding scrub_injection_env
scrub-Clean [] = (inr refl, tt)
scrub-Clean (kv ∷ env) = elim (Bool-cases (is_injected kv)) [
  | inl bad ↦ rw bad (scrub-Clean env)
  | inr good ↦ rw good (is_injected-Clean kv good, scrub-Clean env)
]

with_dir-Clean : (dir v : Bytes) → is_injected (with_dir dir v) ≡ false
unfolding cut_prefix
with_dir-Clean dir [] = refl
with_dir-Clean dir (c ∷ v) = refl

append_to-Clean :
    (dir : Bytes) (found : Bool) (env : List Bytes)
    → All Clean env
    → All Clean (append_to dir found env)
append_to-Clean dir true [] h = unfold append_to in tt
append_to-Clean dir false [] h =
    unfold append_to in (is_injected-Clean _ (with_dir-Clean dir []), tt)
append_to-Clean dir found (kv ∷ env) h = elim (Option-cases (cut_prefix path_key kv)) [
  | inl e ↦ rw (append_to-other dir found kv env e) (h.0, append_to-Clean dir found env h.1)
  | inr (v, e) ↦
      rw (append_to-path dir found kv v env e)
        (is_injected-Clean _ (with_dir-Clean dir v), append_to-Clean dir true env h.1)
]

-- A routed child sees none of the variables that would inject the interceptor into it again: its
-- environment has no entry that begins with DYLD_INSERT_LIBRARIES= or RCC_, but RCC_EXECUTOR=1, whatever
-- the request or the executor's own environment carries.
pub child_env-Clean : (own env : List Bytes) (rg_dir : Bytes) → All Clean (child_env own env rg_dir)
unfolding child_env append_path
child_env-Clean own env [] = scrub-Clean (base_env own env)
child_env-Clean own env (c ∷ dir) =
    append_to-Clean (c ∷ dir) false _ (scrub-Clean (base_env own env))
