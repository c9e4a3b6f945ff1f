-- ===== src/Cli/Run.antt =====
-- cmd/rca/run.go: `cmdRun`, from the options to the command that it starts.
pub mod Pins
pub mod Agreement
pub mod Host
pub mod Wrapped
use remote_adapter.Prelude.{
  ℕ, Bool, true, false, not, ◌&&◌, Option, none, some, List, [], ◌∷◌, ◌++◌, Bytes, codes, equal,
  join, map, if◌then◌else◌,
}
use remote_adapter.Prelude.Int.{ℤ, pos}
use remote_adapter.Prelude.FilePath.{is_empty, base, dir_name, join_path}
use remote_adapter.Routing.{Mode, remote_allowlist, local_allowlist, Table, new_table}
use remote_adapter.Adapter.Link.{Link}
use remote_adapter.Adapter.ServerInfo.{query_server_info}
use remote_adapter.Adapter.Launch.{
  Platform, darwin, linux, other_platform, LaunchConfig, Command, Built, built, not_built,
  build_command, MacTools, prepare_macos_copy, is_darwin,
}
use remote_adapter.Subprocess.Child.{Waited, exited, exit_error, other_error}
use remote_adapter.Cli.RunArgs.{RunOpts, Parsed, parsed, refused, parse_run_args}
use remote_adapter.Cli.Profile.{
  detect_profile, profile_local_prefixes, profile_spawn_helpers, profile_cross_os_extra_args,
  os_hint_args,
}
use remote_adapter.Cli.Embedded.{Cache, native_artifact_name, extract_embedded_native}
use remote_adapter.Cli.Run.Host.{
  Transport, via, code, peer, unix, Dialed, dialer, no_dialer, RunHost, Step, next, leave, ◌>>=◌,
  or_leave, check,
}
use remote_adapter.Cli.Run.Wrapped.{
  wait_status, injected_env, mount_args, in_namespace, wrap_mount_namespace,
}

abbrev pub resolved : Bytes → Option Bytes → Bytes
resolved p none = p
resolved p (some r) = r

-- `resolvePrefixes`.
unfoldable pub resolve_prefixes : (Bytes → Option Bytes) → List Bytes → List Bytes
resolve_prefixes eval [] = []
resolve_prefixes eval (p ∷ ps) = resolved p (eval p) ∷ resolve_prefixes eval ps

abbrev pub profile_of : RunOpts → Bytes
profile_of o = if is_empty o.profile then detect_profile o.command else o.profile

-- How `cmdRun` ends: with a status before anything ran, serving until a signal, with the command
-- printed, or with the command run.
pub data Ending : Type 0 where
  left : ℤ → Ending
  served : Table → Ending
  printed : Table → List Bytes → List Bytes → Ending
  ran : Table → Command → ℤ → Ending

module _ (k : Link) (h : RunHost k) where
  abbrev pub workdir_of : RunOpts → Step Bytes
  workdir_of o = if is_empty o.workdir then or_leave 1 h.getwd else next o.workdir

  abbrev pub table_for : Mode → List Bytes → List Bytes → Table
  table_for m rs ls =
      new_table m (resolve_prefixes h.eval_symlinks rs) (resolve_prefixes h.eval_symlinks ls)

  abbrev pub pinned : RunOpts → List Bytes
  pinned o = profile_local_prefixes h.getenv (profile_of o) ++ o.local_prefixes

  abbrev pub allowlist_table : RunOpts → Step Table
  allowlist_table o =
      if is_empty o.remote_prefixes
      then workdir_of o >>= (λ wd. next (table_for remote_allowlist (wd ∷ []) o.local_prefixes))
      else next (table_for remote_allowlist o.remote_prefixes o.local_prefixes)

  -- The mode and the prefixes.
  unfoldable pub route_table : RunOpts → Step Table
  unfolding resolve_prefixes
  route_table o =
      if o.default_remote
      then next (table_for local_allowlist o.remote_prefixes (pinned o))
      else allowlist_table o

  -- The helpers next to the target, next to its copy; one that is not there is skipped.
  unfoldable pub copy_helpers : Bytes → Bytes → List Bytes → Step (Unit {0})
  copy_helpers real dest [] = next tt
  copy_helpers real dest (name ∷ names) =
      let rest = copy_helpers real dest names in
      if h.present (join_path (dir_name real) name)
      then or_leave 1 (
          prepare_macos_copy h.platform h.tools (join_path (dir_name real) name)
            (join_path (dir_name dest) name))
        >>= (λ c. rest)
      else rest

  abbrev pub copy_path : RunOpts → Bytes → Bytes
  copy_path o real =
      join_path (dir_name o.adapter_sock) (codes "rcc-" ++ (base real ++ codes "-copy"))

  abbrev pub resigned : RunOpts → Bytes → Step Bytes
  resigned o real =
      if h.platform_binary real
      then leave (pos 1)
      else or_leave 1 (prepare_macos_copy h.platform h.tools real (copy_path o real)) >>= (λ target.
        copy_helpers real (copy_path o real) (profile_spawn_helpers (profile_of o))
        >>= (λ done. next target))

  abbrev pub signed_target : RunOpts → Bytes → Step Bytes
  signed_target o real = if is_darwin h.platform && o.resign then resigned o real else next real

  -- The binary to start.
  unfoldable pub target_of : RunOpts → Step Bytes
  unfolding copy_helpers
  target_of o =
      if o.serve_fs_only then next [] else or_leave 127 (h.look_path o.command) >>= signed_target o

  abbrev pub with_spawn_proxy : RunOpts → Step RunOpts
  with_spawn_proxy o =
      if is_empty o.spawn_proxy
      then or_leave 1 h.executable >>= (λ self. next (record o { spawn_proxy = self }))
      else next o

  abbrev pub not_empty : Bytes → Step Bytes
  not_empty [] = leave (pos 1)
  not_empty (c ∷ p) = next (c ∷ p)

  abbrev pub artifact : Step Bytes
  artifact =
      or_leave 1 ((extract_embedded_native h.cache (native_artifact_name h.platform)).path)
      >>= not_empty

  abbrev pub interceptor_for : Platform → RunOpts → Step RunOpts
  interceptor_for darwin o =
      if is_empty o.dylib then artifact >>= (λ p. next (record o { dylib = p })) else next o
  interceptor_for linux o =
      if is_empty o.supervisor
      then artifact >>= (λ p. next (record o { supervisor = p }))
      else next o
  interceptor_for other_platform o = next o

  abbrev pub with_interceptor : RunOpts → Step RunOpts
  with_interceptor o = if o.serve_fs_only then next o else interceptor_for h.platform o

  unfoldable pub transport_of : RunOpts → Transport
  transport_of o =
      if not (is_empty o.via)
      then via o.via
      else if not (is_empty o.code)
      then code o.code
      else if not (is_empty o.peer)
      then peer o.peer
      else unix o.sock

  abbrev pub dialed : Dialed k.State → Step k.State
  dialed (dialer l) = next l
  dialed (no_dialer n) = leave (pos n)

  abbrev pub bridge_sock : RunOpts → Bytes
  bridge_sock o = o.adapter_sock ++ codes ".exec"

  abbrev pub listening : RunOpts → Step (Unit {0})
  listening o = check (h.listen o.adapter_sock) >>= (λ u. check (h.listen (bridge_sock o)))

  abbrev pub second_attempt : Option (Bytes × Bytes) × k.State → Option (Bytes × Bytes)
  second_attempt (some platform, l) = some platform
  second_attempt (none, l) = (query_server_info k l).0

  -- The probe for the executor's platform, made once more where it failed.
  unfoldable pub probe : k.State → Option (Bytes × Bytes)
  probe l = second_attempt (query_server_info k l)

  -- What is put before the engine's own arguments.
  unfoldable pub injected_args : Bytes → Option (Bytes × Bytes) → List Bytes
  injected_args name none = []
  injected_args name (some (exec_os, exec_arch)) =
      if equal exec_os h.goos
      then []
      else os_hint_args name h.goos exec_os exec_arch ++ profile_cross_os_extra_args name

  unfoldable pub config_of : RunOpts → Table → Bytes → List Bytes → LaunchConfig
  config_of o t target args = record {
    target_path = target;
    args = args;
    work_dir = o.workdir;
    adapter_sock = o.adapter_sock;
    executor_sock = bridge_sock o;
    spawn_proxy_path = o.spawn_proxy;
    remote_prefixes = t.remote_prefixes;
    spawn_sentinel = o.sentinel;
    dylib_path = o.dylib;
    supervisor_path = o.supervisor;
    extra_env = [];
  }

  abbrev pub or_refused : Built → Step Command
  or_refused (built c) = next c
  or_refused (not_built e) = leave (pos 1)

  abbrev pub status_of : Option Waited → ℤ
  status_of none = pos 1
  status_of (some w) = wait_status w

  abbrev pub printed_or_run : RunOpts → Table → LaunchConfig → Command → Ending
  printed_or_run o t cfg c =
      if o.print_cmd
      then printed t c.argv (injected_env h.platform cfg)
      else ran t c (status_of (h.start c))

  -- From the configuration on.
  unfoldable pub launch : RunOpts → Table → LaunchConfig → Step Ending
  launch o t cfg = do
    c ← or_refused (build_command h.platform h.own_env cfg)
    wd ← workdir_of o
    wrapped ←
        or_leave 1
          (wrap_mount_namespace h.platform h.executable c o.adapter_sock wd t.remote_prefixes)
    next (printed_or_run o t cfg wrapped)

  abbrev pub serve_or_launch : RunOpts → Table → Bytes → k.State → Step Ending
  serve_or_launch o t target l =
      if o.serve_fs_only
      then next (served t)
      else launch o t (config_of o t target (injected_args (profile_of o) (probe l) ++ o.args))

  -- From the options on.
  unfoldable pub run : RunOpts → Step Ending
  run o = do
    t ← route_table o
    target ← target_of o
    o1 ← with_spawn_proxy o
    o2 ← with_interceptor o1
    l ← dialed (h.dial (transport_of o2))
    u ← listening o2
    serve_or_launch o2 t target l

  abbrev pub ending : Step Ending → Ending
  ending (next e) = e
  ending (leave n) = left n

  abbrev pub after_parse : Parsed RunOpts → Ending
  after_parse (refused e) = left (pos 2)
  after_parse (parsed o) = ending (run o)

  -- `cmdRun`.
  unfoldable pub cmd_run : List Bytes → Ending
  cmd_run args = after_parse (parse_run_args (is_darwin h.platform) h.default_sock args)
