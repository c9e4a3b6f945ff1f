-- ===== src/Cli/Run/Wrapped.antt =====
-- cmd/rca/run.go and cmd/rca/run_fuse_linux.go: `exitCode`, `injectedEnv` and `wrapMountNamespace`.
use remote_adapter.Prelude.{
  Option, none, some, List, [], ◌∷◌, ◌++◌, Bytes, codes, join, if◌then◌else◌,
}
use remote_adapter.Prelude.Int.{ℤ, pos}
use remote_adapter.Adapter.Launch.{
  Platform, darwin, linux, other_platform, LaunchConfig, Command, is_darwin,
}
use remote_adapter.Subprocess.Child.{Waited, exited, exit_error, other_error}

-- `exitCode`.
unfoldable pub wait_status : Waited → ℤ
wait_status exited = pos 0
wait_status (exit_error n) = n
wait_status other_error = pos 1

-- `injectedEnv`.
unfoldable pub injected_env : Platform → LaunchConfig → List Bytes
injected_env p c =
    (codes "RCC_ADAPTER_SOCK=" ++ c.adapter_sock)
    ∷ (codes "RCC_EXECUTOR_SOCK=" ++ c.executor_sock)
    ∷ (codes "RCC_SPAWN_PROXY=" ++ c.spawn_proxy_path)
    ∷ (codes "RCC_REMOTE_PREFIXES=" ++ join (codes ":") c.remote_prefixes)
    ∷ (codes "RCC_SPAWN_SENTINEL=" ++ c.spawn_sentinel)
    ∷ (codes "RCC_TARGET_PATH=" ++ c.target_path)
    ∷ (if is_darwin p then (codes "DYLD_INSERT_LIBRARIES=" ++ c.dylib_path) ∷ [] else [])

-- The flags of `rca _nsrun` for the prefixes.
unfoldable pub mount_args : List Bytes → List Bytes
mount_args [] = []
mount_args (p ∷ ps) = codes "-mount" ∷ p ∷ mount_args ps

-- `wrapMountNamespace` on Linux, with the path of rca itself.
unfoldable pub in_namespace : Bytes → Command → Bytes → Bytes → List Bytes → Command
in_namespace self c adapter_sock workdir prefixes = record {
  path = self;
  argv =
      self
      ∷ codes "_nsrun"
      ∷ codes "-adapter-sock"
      ∷ adapter_sock
      ∷ codes "-workdir"
      ∷ workdir
      ∷ (mount_args prefixes ++ (codes "--" ∷ c.argv));
  env = c.env;
  dir = [];
}

-- `wrapMountNamespace`, which does nothing off Linux.
unfoldable pub wrap_mount_namespace :
    Platform → Option Bytes → Command → Bytes → Bytes → List Bytes → Option Command
wrap_mount_namespace linux none c adapter_sock workdir prefixes = none
wrap_mount_namespace linux (some self) c adapter_sock workdir prefixes =
    some (in_namespace self c adapter_sock workdir prefixes)
wrap_mount_namespace darwin self c adapter_sock workdir prefixes = some c
wrap_mount_namespace other_platform self c adapter_sock workdir prefixes = some c
