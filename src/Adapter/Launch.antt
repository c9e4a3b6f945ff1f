-- ===== src/Adapter/Launch.antt =====
-- internal/adapter/launch.go: the command that starts the intercepted agent.
pub mod Scrubbed
use remote_adapter.Prelude.{
  Bool, true, false, not, ◌&&◌, ◌||◌, Option, none, some, List, [], ◌∷◌, ◌++◌, Bytes, codes, join,
  starts_with, trim_space, if◌then◌else◌,
}
use remote_adapter.Prelude.FilePath.{is_empty, dir_name}

-- runtime.GOOS.
pub data Platform : Type 0 where
  darwin linux other_platform : Platform

pub record LaunchConfig : Type 0 where
  pub target_path : Bytes
  pub args : List Bytes
  pub work_dir : Bytes
  pub adapter_sock : Bytes
  pub executor_sock : Bytes
  pub spawn_proxy_path : Bytes
  pub remote_prefixes : List Bytes
  pub spawn_sentinel : Bytes
  pub dylib_path : Bytes
  pub supervisor_path : Bytes
  pub extra_env : List Bytes

-- An *exec.Cmd: its binary, its argument vector, its environment and its directory.
pub record Command : Type 0 where
  pub path : Bytes
  pub argv : List Bytes
  pub env : List Bytes
  pub dir : Bytes

pub data LaunchError : Type 0 where
  no_target no_dylib no_supervisor unsupported : LaunchError

pub data Built : Type 0 where
  built : Command → Built
  not_built : LaunchError → Built

-- What the environment gets for the interceptor and the proxy.
abbrev pub wiring : LaunchConfig → List Bytes
wiring c =
    (codes "RCC_ADAPTER_SOCK=" ++ c.adapter_sock)
    ∷ (codes "RCC_EXECUTOR_SOCK=" ++ c.executor_sock)
    ∷ (codes "RCC_SPAWN_PROXY=" ++ c.spawn_proxy_path)
    ∷ (codes "RCC_REMOTE_PREFIXES=" ++ join (codes ":") c.remote_prefixes)
    ∷ (codes "RCC_SPAWN_SENTINEL=" ++ c.spawn_sentinel)
    ∷ (codes "RCC_TARGET_PATH=" ++ c.target_path)
    ∷ []

abbrev pub launch_env : List Bytes → LaunchConfig → List Bytes
launch_env own c = (own ++ wiring c) ++ c.extra_env

abbrev pub built_for : Platform → List Bytes → LaunchConfig → Built
built_for other_platform env c = not_built unsupported
built_for darwin env c =
    if is_empty c.dylib_path
    then not_built no_dylib
    else built (record {
      path = c.target_path;
      argv = c.target_path ∷ c.args;
      env = env ++ ((codes "DYLD_INSERT_LIBRARIES=" ++ c.dylib_path) ∷ []);
      dir = c.work_dir;
    })
built_for linux env c =
    if is_empty c.supervisor_path
    then not_built no_supervisor
    else built (record {
      path = c.supervisor_path;
      argv = c.supervisor_path ∷ c.target_path ∷ c.args;
      env = env;
      dir = c.work_dir;
    })

-- `BuildCommand`, in a process with the environment `own`.
unfoldable pub build_command : Platform → List Bytes → LaunchConfig → Built
build_command p own c =
    if is_empty c.target_path then not_built no_target else built_for p (launch_env own c) c

-- The tools and files of the host that `PrepareMacOSCopy` uses; `false` and `none` are errors.
pub record MacTools : Type 0 where
  pub mkdir_all : Bytes → Bool
  pub copy_file : Bytes → Bytes → Bool
  pub print_entitlements : Bytes → Option Bytes
  pub temp_file : Bytes → Option Bytes
  pub codesign : List Bytes → Bool

abbrev pub contains : Bytes → Bytes → Bool
contains word [] = is_empty word
contains word (c ∷ s) = starts_with word (c ∷ s) || contains word s

-- The empty path is for a binary that has no entitlements.
abbrev pub kept_entitlements : MacTools → Option Bytes → Option Bytes
kept_entitlements t none = some []
kept_entitlements t (some printed) =
    if is_empty (trim_space printed) || not (contains (codes "<key>") printed)
    then some []
    else t.temp_file printed

unfoldable pub extract_entitlements : MacTools → Bytes → Option Bytes
extract_entitlements t bin = kept_entitlements t (t.print_entitlements bin)

abbrev pub sign_args : Bytes → Bytes → List Bytes
sign_args ent dest =
    (codes "--force" ∷ codes "--sign" ∷ codes "-" ∷ [])
    ++ ((if is_empty ent then [] else codes "--entitlements" ∷ ent ∷ []) ++ (dest ∷ []))

abbrev pub signed_copy : MacTools → Bytes → Option Bytes → Option Bytes
signed_copy t dest none = none
signed_copy t dest (some ent) = if t.codesign (sign_args ent dest) then some dest else none

abbrev pub is_darwin : Platform → Bool
is_darwin darwin = true
is_darwin linux = false
is_darwin other_platform = false

-- `PrepareMacOSCopy`.
unfoldable pub prepare_macos_copy : Platform → MacTools → Bytes → Bytes → Option Bytes
prepare_macos_copy p t real dest =
    if is_darwin p && (t.mkdir_all (dir_name dest) && t.copy_file real dest)
    then signed_copy t dest (extract_entitlements t real)
    else none
