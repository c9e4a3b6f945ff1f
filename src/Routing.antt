-- ===== src/Routing.antt =====
-- internal/routing/routing.go: which side an operation on a path runs on.
pub mod Prefixes
pub mod Decision
pub mod Policy
use remote_adapter.Prelude.{
  Bool, true, false, not, ◌||◌, List, [], ◌∷◌, ◌++◌, Bytes, equal, starts_with, trim_space,
  if◌then◌else◌,
}
use remote_adapter.Prelude.FilePath.{slash, clean, is_empty}

pub data Mode : Type 0 where
  remote_allowlist local_allowlist : Mode

pub record Table : Type 0 where
  pub mode : Mode
  pub remote_prefixes : List Bytes
  pub local_prefixes : List Bytes

unfoldable pub clean_prefixes : List Bytes → List Bytes
clean_prefixes [] = []
clean_prefixes (p ∷ ps) =
    if is_empty (trim_space p) then clean_prefixes ps else clean (trim_space p) ∷ clean_prefixes ps

unfoldable pub new_table : Mode → List Bytes → List Bytes → Table
new_table m rs ls = record {
  mode = m;
  remote_prefixes = clean_prefixes rs;
  local_prefixes = clean_prefixes ls;
}

-- The loop of `matchesAny`.
unfoldable pub matches_any : Bytes → List Bytes → Bool
matches_any path [] = false
matches_any path (pre ∷ ps) =
    if equal path pre
    then true
    else if starts_with (pre ++ (slash ∷ [])) path
    then true
    else matches_any path ps

-- The default of a mode, for the empty path.
abbrev mode_default : Mode → Bool
mode_default remote_allowlist = false
mode_default local_allowlist = true

abbrev decide_path : Mode → Table → Bytes → Bool
decide_path local_allowlist t path = not (matches_any path t.local_prefixes)
decide_path remote_allowlist t path = matches_any path t.remote_prefixes

unfoldable pub is_remote : Table → Bytes → Bool
is_remote t [] = mode_default t.mode
is_remote t (c ∷ path) = decide_path t.mode t (clean (c ∷ path))
