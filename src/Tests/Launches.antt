-- ===== src/Tests/Launches.antt =====
-- Runs of rca itself, on a Linux host whose executor is a Mac.
use remote_adapter.Prelude.{
  ◌≡◌, refl, true, false, none, some, Option, List, [], ◌∷◌, ◌++◌, Bytes, codes, arith, equal, drop,
  join, not, take, trim_space, if◌then◌else◌,
}
use remote_adapter.Prelude.Int.{ℤ, pos}
use remote_adapter.Prelude.FilePath.{
  is_rooted, join_path, clean, components, push, base, split_from, render,
}
use remote_adapter.Adapter.Launch.{
  is_darwin, launch_env, linux, darwin, LaunchConfig, Command, built, build_command, MacTools,
}
use remote_adapter.Subprocess.Child.{exit_error}
use remote_adapter.Adapter.Link.{Link}
use remote_adapter.Protocol.Types.{errno_response}
use remote_adapter.Cli.RunArgs.{parse_run_args, RunOpts, default_opts}
use remote_adapter.Cli.Profile.{
  profile_local_prefixes, find_profile, config_home, codex, extras, detect_profile,
  profile_cross_os_extra_args,
}
use remote_adapter.Cli.Embedded.{Cache, FileOp, cache_dir, extract_embedded_native}
use remote_adapter.Cli.Embedded.Whole.{Files}
use remote_adapter.Cli.Run.Host.{RunHost, dialer}
use remote_adapter.Cli.Run.Wrapped.{injected_env, in_namespace, wait_status}
use remote_adapter.Cli.Run.{Ending, ran, resolve_prefixes, injected_args, route_table, cmd_run}
use remote_adapter.Cli.Run.Agreement.{sock_of, IsAgreed, cmd_run-IsAgreed}
use remote_adapter.Tests.Stubs.{stub_link}

abbrev pub cache : Cache
cache = record {
  embedded = λ name. some (codes "ELF");
  digest = λ b. codes "0a";
  user_cache_dir = some (codes "/h/.cache");
  temp_dir = codes "/tmp";
  size_of = λ p. none;
  mkdir_all = λ p. true;
  create_temp = λ dir pat. some (codes "/h/.cache/t1");
  written = λ p b. b;
  chmod = λ p. true;
  close = λ p. true;
  rename = λ p q. true;
}

abbrev no_files : Files
no_files p = none

abbrev artifact : Bytes
artifact = join_path (cache_dir cache (codes "ELF")) (codes "rcc_seccomp")

abbrev tools : MacTools
tools = record {
  mkdir_all = λ p. true;
  copy_file = λ p q. true;
  print_entitlements = λ p. none;
  temp_file = λ b. none;
  codesign = λ args. true;
}

-- An executor on a Mac.
abbrev mac_link : Link
mac_link = record stub_link {
  receive = λ o l.
      (some (record (errno_response (pos 0)) { os = codes "darwin"; arch = codes "arm64" }), l);
}

abbrev laptop : RunHost mac_link
laptop = record {
  platform = linux;
  goos = codes "linux";
  default_sock = codes "/tmp/a.sock";
  own_env = codes "RCC_REMOTE_PREFIXES=/old" ∷ [];
  getenv = λ v. if equal v (codes "HOME") then codes "/h" else [];
  getwd = some (codes "/w");
  eval_symlinks = λ p. none;
  look_path = λ p. some p;
  platform_binary = λ p. false;
  tools = tools;
  present = λ p. true;
  executable = some (codes "/bin/rca");
  cache = cache;
  dial = λ t. dialer 0;
  listen = λ s. true;
  start = λ c. some (exit_error (pos 3));
}

abbrev codex_remote : RunOpts
codex_remote = record (default_opts false (codes "/tmp/a.sock")) {
  command = codes "/usr/bin/codex";
  default_remote = true;
}

-- The executor is a Mac: codex is told, and its own sandbox is switched off.
hint_run :
    profile_cross_os_extra_args (codes "codex") ≡ codes "-s" ∷ codes "danger-full-access" ∷ []
unfolding profile_cross_os_extra_args find_profile codex equal
hint_run = refl

same_os_run :
    injected_args mac_link laptop (codes "codex") (some (codes "linux", codes "arm64")) ≡ []
unfolding injected_args equal
same_os_run = refl

abbrev mac_launch : LaunchConfig
mac_launch = record {
  target_path = codes "/tmp/c";
  args = [];
  work_dir = [];
  adapter_sock = codes "/s";
  executor_sock = codes "/s.exec";
  spawn_proxy_path = codes "/bin/rca";
  remote_prefixes = codes "/w" ∷ codes "/v" ∷ [];
  spawn_sentinel = codes "M";
  dylib_path = codes "/d.dylib";
  supervisor_path = [];
  extra_env = [];
}

abbrev mac_command : Command
mac_command = record {
  path = codes "/tmp/c";
  argv = codes "/tmp/c" ∷ [];
  env =
      launch_env (codes "HOME=/h" ∷ []) mac_launch ++ (codes "DYLD_INSERT_LIBRARIES=/d.dylib" ∷ []);
  dir = [];
}

abbrev command_line : List Bytes
command_line = codes "claude" ∷ codes "--sock" ∷ codes "/x" ∷ []

cmd_run-IsAgreed_example :
    IsAgreed laptop.listen
      (sock_of (parse_run_args (is_darwin laptop.platform) laptop.default_sock command_line))
      (cmd_run mac_link laptop command_line)
cmd_run-IsAgreed_example = cmd_run-IsAgreed mac_link laptop command_line

-- What was started, and its status.
abbrev argv_of : Ending → List Bytes × ℤ
argv_of (ran t c n) = (take 12 c.argv, n)
argv_of e = ([], pos 0)

cmd_run_run : argv_of (cmd_run mac_link laptop command_line) ≡ (
  codes "/bin/rca"
      ∷ codes "_nsrun"
      ∷ codes "-adapter-sock"
      ∷ codes "/tmp/a.sock"
      ∷ codes "-workdir"
      ∷ codes "/w"
      ∷ codes "-mount"
      ∷ codes "/w"
      ∷ codes "--"
      ∷ codes "/h/.cache/rca/native/0a/rcc_seccomp"
      ∷ codes "claude"
      ∷ codes "--append-system-prompt"
      ∷ [],
  pos 3,
)
unfolding cmd_run remote_adapter.Cli.RunArgs.parse_run_args remote_adapter.Cli.RunArgs.token_of
    equal remote_adapter.Prelude.cut_prefix remote_adapter.Cli.RunArgs.find_flag
    remote_adapter.Cli.RunArgs.owned_flags remote_adapter.Cli.RunArgs.split_value
    remote_adapter.Prelude.trim_left remote_adapter.Cli.Run.run route_table
    remote_adapter.Cli.Run.target_of extract_embedded_native
    remote_adapter.Cli.Embedded.native_artifact_name join_path remote_adapter.Cli.Run.launch
    build_command remote_adapter.Cli.Run.config_of
    remote_adapter.Adapter.Launch.extract_entitlements
    remote_adapter.Adapter.Launch.prepare_macos_copy
    remote_adapter.Adapter.ServerInfo.query_server_info remote_adapter.Cli.Profile.claude codex
    config_home detect_profile extras find_profile remote_adapter.Cli.Profile.os_hint_args
    remote_adapter.Cli.Profile.os_hint_text profile_cross_os_extra_args profile_local_prefixes
    remote_adapter.Cli.Profile.profile_spawn_helpers remote_adapter.Cli.Run.copy_helpers
    in_namespace injected_args injected_env remote_adapter.Cli.Run.Wrapped.mount_args
    remote_adapter.Cli.Run.probe resolve_prefixes remote_adapter.Cli.Run.transport_of wait_status
    remote_adapter.Cli.Run.Wrapped.wrap_mount_namespace default_opts remote_adapter.Cli.RunArgs.scan
    base clean components remote_adapter.Prelude.FilePath.dir_name push render split_from
    remote_adapter.Prelude.FilePath.through_slash join trim_space
    remote_adapter.Routing.clean_prefixes remote_adapter.Routing.new_table
cmd_run_run = refl
