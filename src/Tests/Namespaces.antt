-- ===== src/Tests/Namespaces.antt =====
-- Runs of `rca _nsrun`, on a host without one of two directories.
use remote_adapter.Prelude.{
  ◌≡◌, refl, true, none, some, Option, List, [], ◌∷◌, ◌++◌, Bytes, codes, equal, drop, not,
  if◌then◌else◌,
}
use remote_adapter.Prelude.Int.{pos}
use remote_adapter.Adapter.Launch.{Command}
use remote_adapter.Subprocess.Child.{exit_error}
use remote_adapter.Cli.Run.Wrapped.{in_namespace, wait_status}
use remote_adapter.Cli.Main.{ns_run, dispatch}
use remote_adapter.Cli.Namespace.{
  NsFlags, NsHost, reexec_of, ran_again, ran_inner, mount_all, mount_one, unmount_all, ns_run_inner,
  cmd_ns_run, started, made, mounted, unmounting, removing,
}
use remote_adapter.Cli.Namespace.Teardown.{IsUndone, IsCovered, ns_run_inner-IsUndone}
use remote_adapter.Cli.Namespace.Handover.{IsFlagPackage, handed, cmd_ns_run-in_namespace}

-- Package flag, as far as these runs use it.
unfoldable parse : NsFlags → List Bytes → Option (NsFlags × List Bytes)
parse f [] = some (f, [])
parse f (a ∷ []) =
    if equal a (codes "--")
    then some (f, [])
    else if equal a (codes "-inner")
    then some (record f { inner = true }, [])
    else none
parse f (a ∷ v ∷ args) =
    if equal a (codes "--")
    then some (f, v ∷ args)
    else if equal a (codes "-inner")
    then parse (record f { inner = true }) (v ∷ args)
    else if equal a (codes "-adapter-sock")
    then parse (record f { adapter_sock = v }) args
    else if equal a (codes "-workdir")
    then parse (record f { workdir = v }) args
    else if equal a (codes "-mount")
    then parse (record f { mounts = f.mounts ++ (v ∷ []) }) args
    else none

-- A host on which /b cannot be mounted, and /a is not there.
abbrev ns_host : NsHost
ns_host = record {
  parse = parse;
  executable = some (codes "/bin/rca");
  uid = 1000;
  gid = 100;
  missing = λ es d. equal d (codes "/a");
  mkdir_all = λ es d. true;
  mount = λ es d. not (equal d (codes "/b"));
  start = λ es c. some (exit_error (pos 3));
  start_outer = λ r. some (exit_error (pos 3));
}

takes_inner :
    (f : NsFlags) (args : List Bytes)
    → parse f (codes "-inner" ∷ args) ≡ parse (record f { inner = true }) args
unfolding parse equal
takes_inner f [] = refl
takes_inner f (v ∷ args) = refl

ends : (f : NsFlags) (args : List Bytes) → parse f (codes "--" ∷ args) ≡ some (f, args)
unfolding parse equal
ends f [] = refl
ends f (v ∷ args) = refl

parse-IsFlagPackage : IsFlagPackage ns_host
unfolding parse equal
parse-IsFlagPackage = record {
  takes_sock = λ f v args. refl;
  takes_workdir = λ f v args. refl;
  takes_mount = λ f v args. refl;
  takes_inner = λ f args. takes_inner f args;
  ends = λ f args. ends f args;
}

abbrev wrapped : Command
wrapped = record { path = codes "/s"; argv = codes "/s" ∷ codes "cat" ∷ []; env = []; dir = [] }

abbrev handed_args : List Bytes
handed_args = handed (codes "rca") wrapped (codes "/a.sock") (codes "/w") (codes "/w" ∷ [])

cmd_ns_run-in_namespace_example :
    (dispatch (
        drop 1 (
          (in_namespace
            (codes "rca")
            wrapped
            (codes "/a.sock")
            (codes "/w")
            (codes "/w" ∷ [])).argv))
      ≡ ns_run handed_args)
    × (cmd_ns_run ns_host handed_args
        ≡ ran_again
            (reexec_of ns_host (codes "/bin/rca") handed_args)
            (wait_status (exit_error (pos 3))))
    × (dispatch (drop 1 ((reexec_of ns_host (codes "/bin/rca") handed_args).argv))
        ≡ ns_run (codes "-inner" ∷ handed_args))
    × (cmd_ns_run ns_host (codes "-inner" ∷ handed_args)
        ≡ ran_inner (record {
          trace =
              mounted (codes "/w")
              ∷ started (record { argv = codes "/s" ∷ codes "cat" ∷ []; dir = codes "/w" })
              ∷ unmounting (codes "/w")
              ∷ [];
          status = pos 3;
        }))
unfolding wait_status equal
cmd_ns_run-in_namespace_example =
    cmd_ns_run-in_namespace ns_host parse-IsFlagPackage (codes "rca") (codes "/bin/rca")
      (codes "/a.sock") (codes "/w") (codes "/s") (codes "cat" ∷ []) (codes "/w" ∷ []) wrapped
      (exit_error (pos 3)) (exit_error (pos 3)) refl refl refl refl (λ es. ((refl, refl), tt)) refl

failing_mount_run :
    (ns_run_inner ns_host (codes "/w") (codes "/a" ∷ codes "/b" ∷ []) (codes "/s" ∷ [])).trace
    ≡ made (codes "/a")
      ∷ mounted (codes "/a")
      ∷ unmounting (codes "/a")
      ∷ removing (codes "/a")
      ∷ []
unfolding ns_run_inner mount_all mount_one unmount_all equal
failing_mount_run = refl

ns_run_inner-IsUndone_example :
    IsUndone
      ((ns_run_inner ns_host (codes "/w") (codes "/a" ∷ codes "/c" ∷ []) (codes "/s" ∷ [])).trace)
    × IsCovered
        (codes "/a" ∷ codes "/c" ∷ [])
        (record { argv = codes "/s" ∷ []; dir = codes "/w" })
        ((ns_run_inner ns_host (codes "/w") (codes "/a" ∷ codes "/c" ∷ []) (codes "/s" ∷ [])).trace)
ns_run_inner-IsUndone_example =
    ns_run_inner-IsUndone ns_host (codes "/w") (codes "/a" ∷ codes "/c" ∷ []) (codes "/s" ∷ [])
