-- ===== src/Cli/Profile.antt =====
-- cmd/rca/profile.go: what each engine needs to stay on the local host, and to be told of the executor's.
-- `getenv` is os.Getenv, which gives the empty string for a variable that is not set.
use remote_adapter.Prelude.{
  ◌||◌, Option, none, some, List, [], ◌∷◌, ◌++◌, Bytes, codes, equal, join, map, if◌then◌else◌,
}
use remote_adapter.Prelude.FilePath.{is_empty, base, join_path}

-- engineProfile.
pub record Profile : Type 0 where
  pub env_home : Bytes
  pub default_dir : Bytes
  pub extra_files : List Bytes
  pub abs_extras : List Bytes
  pub spawn_helpers : List Bytes
  pub os_hint_flag : Bytes
  pub os_hint_value_prefix : Bytes
  pub cross_os_extra_args : List Bytes

unfoldable pub claude : Profile
claude = record {
  env_home = codes "CLAUDE_CONFIG_DIR";
  default_dir = codes ".claude";
  extra_files = codes ".claude.json" ∷ [];
  abs_extras =
      codes "/etc/claude-code/managed-settings.json"
      ∷ codes "/Library/Application Support/ClaudeCode/managed-settings.json"
      ∷ [];
  spawn_helpers = [];
  os_hint_flag = codes "--append-system-prompt";
  os_hint_value_prefix = [];
  cross_os_extra_args = [];
}

unfoldable pub codex : Profile
codex = record {
  env_home = codes "CODEX_HOME";
  default_dir = codes ".codex";
  extra_files = [];
  abs_extras = codes "/etc/codex" ∷ [];
  spawn_helpers = codes "codex-code-mode-host" ∷ [];
  os_hint_flag = codes "-c";
  os_hint_value_prefix = codes "developer_instructions=";
  cross_os_extra_args = codes "-s" ∷ codes "danger-full-access" ∷ [];
}

-- `engineProfiles`, looked up.
unfoldable pub find_profile : Bytes → Option Profile
find_profile name =
    if equal name (codes "claude")
    then some claude
    else if equal name (codes "codex")
    then some codex
    else none

abbrev pub named_if : Bytes → Option Profile → Bytes
named_if name none = []
named_if name (some p) = name

unfoldable pub detect_profile : Bytes → Bytes
detect_profile command = named_if (base command) (find_profile (base command))

abbrev pub in_home : Bytes → Bytes → List Bytes
in_home home file = if is_empty home || is_empty file then [] else join_path home file ∷ []

abbrev pub unless_set : Bytes → List Bytes → List Bytes
unless_set [] fallback = fallback
unless_set (c ∷ v) fallback = (c ∷ v) ∷ []

unfoldable pub config_home : (Bytes → Bytes) → Profile → List Bytes
config_home getenv p =
    let fallback = in_home (getenv (codes "HOME")) p.default_dir in
    if is_empty p.env_home then fallback else unless_set (getenv p.env_home) fallback

unfoldable pub extras : Bytes → List Bytes → List Bytes
extras home files = if is_empty home then [] else map (join_path home) files

abbrev pub pins_of : (Bytes → Bytes) → Option Profile → List Bytes
pins_of getenv none = []
pins_of getenv (some p) =
    config_home getenv p ++ (extras (getenv (codes "HOME")) p.extra_files ++ p.abs_extras)

unfoldable pub profile_local_prefixes : (Bytes → Bytes) → Bytes → List Bytes
profile_local_prefixes getenv name = pins_of getenv (find_profile name)

abbrev pub helpers_of : Option Profile → List Bytes
helpers_of none = []
helpers_of (some p) = p.spawn_helpers

unfoldable pub profile_spawn_helpers : Bytes → List Bytes
profile_spawn_helpers name = helpers_of (find_profile name)

abbrev pub extra_args_of : Option Profile → List Bytes
extra_args_of none = []
extra_args_of (some p) = p.cross_os_extra_args

unfoldable pub profile_cross_os_extra_args : Bytes → List Bytes
profile_cross_os_extra_args name = extra_args_of (find_profile name)

-- The three bytes between "IMPORTANT" and "remote" are a dash in UTF-8.
unfoldable pub os_hint_text : Bytes → Bytes → Bytes
os_hint_text exec_os exec_arch = join [] (
    codes "IMPORTANT "
    ∷ (226 ∷ 128 ∷ 148 ∷ [])
    ∷ codes
        " remote execution environment: your shell commands (the Bash tool and every subprocess it spawns) run on a REMOTE "
    ∷ exec_os
    ∷ codes "/"
    ∷ exec_arch
    ∷ codes " host, not on the machine described in your environment context. Write commands for "
    ∷ exec_os
    ∷ codes
        ": use its userland conventions (e.g. GNU coreutils flags on linux, BSD on darwin), its file paths, and only binaries installed on the "
    ∷ exec_os
    ∷ codes
        " host. Ignore the local platform shown in your environment block when choosing command syntax."
    ∷ [])

abbrev pub hint_of : Bytes → Option Profile → List Bytes
hint_of text none = []
hint_of text (some p) =
    if is_empty p.os_hint_flag then [] else p.os_hint_flag ∷ (p.os_hint_value_prefix ++ text) ∷ []

-- `osHintArgs`, for the local and the executor's runtime.GOOS.
unfoldable pub os_hint_args : Bytes → Bytes → Bytes → Bytes → List Bytes
os_hint_args name local_os exec_os exec_arch =
    if is_empty exec_os || equal exec_os local_os
    then []
    else hint_of (os_hint_text exec_os exec_arch) (find_profile name)
