-- ===== src/Tests/CommandLine.antt =====
-- Runs of the command line and of the launch.
use remote_adapter.Prelude.{
  ◌≡◌, refl, false, List, [], ◌∷◌, ◌++◌, Bytes, codes, equal, cut_prefix, trim_left,
}
use remote_adapter.Cli.RunArgs.{
  RunOpts, parsed, default_opts, scan, parse_run_args, find_flag, owned_flags, split_value,
  token_of,
}
use remote_adapter.Adapter.Launch.{LaunchConfig, Command, wiring}

abbrev with_command : RunOpts
with_command = record (default_opts false (codes "/s")) { command = codes "claude" }

abbrev line : List Bytes
line = codes "claude" ∷ codes "-p" ∷ codes "--sock" ∷ codes "/x" ∷ codes "hi" ∷ []

abbrev accepted : RunOpts
accepted = record (default_opts false (codes "/s")) {
  command = codes "claude";
  args = codes "-p" ∷ codes "hi" ∷ [];
  sock = codes "/x";
}

line-accepted : parse_run_args false (codes "/s") line ≡ parsed accepted
unfolding parse_run_args scan token_of find_flag owned_flags split_value equal cut_prefix trim_left
    default_opts
line-accepted = refl

abbrev launch : LaunchConfig
launch = record {
  target_path = codes "/bin/claude";
  args = codes "-p" ∷ [];
  work_dir = codes "/w";
  adapter_sock = codes "/a";
  executor_sock = codes "/e";
  spawn_proxy_path = codes "/bin/rca";
  remote_prefixes = codes "/w" ∷ codes "/v" ∷ [];
  spawn_sentinel = codes "MARK";
  dylib_path = [];
  supervisor_path = codes "/bin/sup";
  extra_env = codes "RCC_FUSE_DEBUG=1" ∷ codes "A=b" ∷ [];
}

abbrev launched : Command
launched = record {
  path = codes "/bin/sup";
  argv = codes "/bin/sup" ∷ codes "/bin/claude" ∷ codes "-p" ∷ [];
  env = (codes "HOME=/h" ∷ wiring launch) ++ (codes "RCC_FUSE_DEBUG=1" ∷ codes "A=b" ∷ []);
  dir = codes "/w";
}
