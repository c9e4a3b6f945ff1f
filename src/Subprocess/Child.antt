-- ===== src/Subprocess/Child.antt =====
-- internal/executor/exec.go: the binary, the environment and the exit code of a routed child. os.Stat
-- and exec.LookPath are parameters there too.
pub mod Environment
pub mod Binary
use remote_adapter.Prelude.{
  ◌≡◌, Bool, true, false, not, ◌&&◌, ◌||◌, Option, none, some, List, [], ◌∷◌, ◌++◌, Bytes, codes,
  equal, cut_prefix, starts_with, if◌then◌else◌,
}
use remote_adapter.Prelude.Int.{ℤ, pos}
use remote_adapter.Prelude.FilePath.{base, is_empty, is_rooted}

-- What `resolveBinPathWith` asks of the host: whether a path is there, and where a name is on PATH.
pub record Lookups : Type 0 where
  pub present : Bytes → Bool
  pub look_path : Bytes → Option Bytes

-- `argv[0]` for an older proxy, which sends no path.
unfoldable pub requested : Bytes → List Bytes → Bytes
requested [] [] = []
requested [] (a ∷ argv) = a
requested (c ∷ p) argv = c ∷ p

abbrev pub arg0_base : List Bytes → Bytes
arg0_base [] = []
arg0_base (a ∷ argv) = base a

abbrev pub rg : Bytes
rg = codes "rg"

abbrev pub bundled : Bytes → Bytes → Bytes → Bytes
bundled arg0 embedded_rg bin =
    if equal arg0 rg && not (is_empty embedded_rg) then embedded_rg else bin

abbrev pub by_arg0 : Option Bytes → Bytes → Bytes → Bytes → Bytes
by_arg0 (some resolved) arg0 embedded_rg bin = resolved
by_arg0 none arg0 embedded_rg bin = bundled arg0 embedded_rg bin

abbrev pub look_arg0 : Lookups → Bytes → Option Bytes
look_arg0 l arg0 = if is_empty arg0 then none else l.look_path arg0

abbrev pub by_base : Option Bytes → Lookups → Bytes → Bytes → Bytes → Bytes
by_base none l arg0 embedded_rg bin = by_arg0 (look_arg0 l arg0) arg0 embedded_rg bin
by_base (some resolved) l arg0 embedded_rg bin =
    if equal resolved bin then by_arg0 (look_arg0 l arg0) arg0 embedded_rg bin else resolved

abbrev pub resolve : Lookups → Bytes → Bytes → Bytes → Bytes
resolve l arg0 embedded_rg bin =
    if not (is_rooted bin)
    then bin
    else if l.present bin
    then bin
    else by_base (l.look_path (base bin)) l arg0 embedded_rg bin

-- `resolveBinPathWith`.
unfoldable pub resolve_bin_path : Lookups → Bytes → List Bytes → Bytes → Bytes
unfolding requested
resolve_bin_path l path argv embedded_rg =
    resolve l (arg0_base argv) embedded_rg (requested path argv)

abbrev pub path_key : Bytes
path_key = codes "PATH="

-- os.PathListSeparator on the hosts that the executor runs on.
abbrev pub with_dir : Bytes → Bytes → Bytes
with_dir dir [] = path_key ++ dir
with_dir dir (c ∷ v) = path_key ++ ((c ∷ v) ++ (b':' ∷ dir))

abbrev pub append_entry : Bytes → Bytes → Option Bytes → Bytes
append_entry dir kv none = kv
append_entry dir kv (some v) = with_dir dir v

-- The loop of `appendPath`, with `found` so far.
unfoldable pub append_to : Bytes → Bool → List Bytes → List Bytes
append_to dir true [] = []
append_to dir false [] = (path_key ++ dir) ∷ []
append_to dir found (kv ∷ env) =
    append_entry dir kv (cut_prefix path_key kv)
    ∷ append_to dir (found || starts_with path_key kv) env

unfoldable pub append_path : List Bytes → Bytes → List Bytes
unfolding append_to
append_path env [] = env
append_path env (c ∷ dir) = append_to (c ∷ dir) false env

abbrev pub is_injected : Bytes → Bool
is_injected kv = starts_with (codes "DYLD_INSERT_LIBRARIES=") kv || starts_with (codes "RCC_") kv

unfoldable pub scrub_injection_env : List Bytes → List Bytes
scrub_injection_env [] = []
scrub_injection_env (kv ∷ env) =
    let rest = scrub_injection_env env in if is_injected kv then rest else kv ∷ rest

-- `os.Environ()` where the request carries no environment.
abbrev pub base_env : List Bytes → List Bytes → List Bytes
base_env own [] = own
base_env own (kv ∷ env) = kv ∷ env

abbrev pub marker : Bytes
marker = codes "RCC_EXECUTOR=1"

-- `cmd.Env` of `serveExec`; `rg_dir` is filepath.Dir of the bundled ripgrep, or empty without one.
unfoldable pub child_env : List Bytes → List Bytes → Bytes → List Bytes
unfolding scrub_injection_env append_path
child_env own env rg_dir =
    append_path (scrub_injection_env (base_env own env) ++ (marker ∷ [])) rg_dir

-- What cmd.Wait returns: nothing, an *exec.ExitError, or another error.
pub data Waited : Type 0 where
  exited : Waited
  exit_error : ℤ → Waited
  other_error : Waited

unfoldable pub exit_code : Waited → ℤ
exit_code exited = pos 0
exit_code (exit_error code) = code
exit_code other_error = pos 127
