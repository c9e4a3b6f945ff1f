-- ===== src/Cli/Namespace/Handover.antt =====
-- The command that `cmdRun` starts on Linux, run to its inner stage.
use remote_adapter.Prelude.{
  ◌≡◌, ◌∙◌, refl, ap, sym, Bool, true, false, ◌||◌, some, List, [], ◌∷◌, ◌++◌, Bytes, codes,
  append_assoc, append-nil, drop, map, equal, if◌then◌else◌,
}
use remote_adapter.Prelude.Int.{pos}
use remote_adapter.Prelude.FilePath.{is_empty}
use remote_adapter.Adapter.Launch.{Command}
use remote_adapter.Subprocess.Child.{Waited}
use remote_adapter.Cli.Run.Wrapped.{mount_args, in_namespace, wait_status}
use remote_adapter.Cli.Main.{ns_run, dispatch}
use remote_adapter.Cli.Namespace.{
  NsFlags, no_flags, NsHost, reexec_of, reexec_from, waited_for, ns_left, ran_again, ran_inner,
  ns_run_inner, ns_run_outer, after_flags, cmd_ns_run, mounted, unmounting, started,
}
use remote_adapter.Cli.Namespace.Mounts.{AreMountable, ns_run_inner-mounts}

-- What package flag does with the arguments of `rca _nsrun`.
pub record IsFlagPackage (h : NsHost) : Type 0 where
  pub takes_sock :
      (f : NsFlags) (v : Bytes) (args : List Bytes)
      → h.parse f (codes "-adapter-sock" ∷ v ∷ args) ≡ h.parse (record f { adapter_sock = v }) args
  pub takes_workdir :
      (f : NsFlags) (v : Bytes) (args : List Bytes)
      → h.parse f (codes "-workdir" ∷ v ∷ args) ≡ h.parse (record f { workdir = v }) args
  pub takes_mount :
      (f : NsFlags) (v : Bytes) (args : List Bytes)
      → h.parse f (codes "-mount" ∷ v ∷ args)
        ≡ h.parse (record f { mounts = f.mounts ++ (v ∷ []) }) args
  pub takes_inner :
      (f : NsFlags) (args : List Bytes)
      → h.parse f (codes "-inner" ∷ args) ≡ h.parse (record f { inner = true }) args
  pub ends : (f : NsFlags) (args : List Bytes) → h.parse f (codes "--" ∷ args) ≡ some (f, args)

-- What `dispatch` hands to `cmdNsRun` of the wrapped command's arguments: those after rca and "_nsrun".
abbrev pub handed : Bytes → Command → Bytes → Bytes → List Bytes → List Bytes
handed self c sock workdir dirs = drop 2 ((in_namespace self c sock workdir dirs).argv)

module _ (h : NsHost) (p : IsFlagPackage h) where
  parse-mount_args :
      (f : NsFlags) (dirs rest : List Bytes)
      → h.parse f (mount_args dirs ++ (codes "--" ∷ rest))
        ≡ some (record f { mounts = f.mounts ++ dirs }, rest)
  unfolding mount_args
  parse-mount_args f [] rest =
      p.ends f rest ∙ ap (λ ds. some (record f { mounts = ds }, rest)) (sym (append-nil f.mounts))
  parse-mount_args f (d ∷ dirs) rest =
      p.takes_mount f d _
      ∙ parse-mount_args (record f { mounts = f.mounts ++ (d ∷ []) }) dirs rest
      ∙ ap (λ ds. some (record f { mounts = ds }, rest)) (append_assoc f.mounts (d ∷ []) dirs)

  module _ (sock workdir : Bytes) (dirs argv : List Bytes) where
    ns_args : List Bytes
    ns_args =
        codes "-adapter-sock"
        ∷ sock
        ∷ codes "-workdir"
        ∷ workdir
        ∷ (mount_args dirs ++ (codes "--" ∷ argv))

    parse-ns_args :
        (f : NsFlags)
        → h.parse f ns_args
          ≡ some (
            record {
              adapter_sock = sock;
              workdir = workdir;
              inner = f.inner;
              mounts = f.mounts ++ dirs;
            },
            argv,
          )
    unfolding ns_args
    parse-ns_args f =
        p.takes_sock f sock _
        ∙ p.takes_workdir (record f { adapter_sock = sock }) workdir _
        ∙ parse-mount_args (record f { adapter_sock = sock; workdir = workdir }) dirs argv

  module _ (sock workdir : Bytes) (dirs : List Bytes) (word : Bytes) (argv : List Bytes) where
    flags : Bool → NsFlags
    flags inner = record { adapter_sock = sock; workdir = workdir; inner = inner; mounts = dirs }

    after_flags-flags :
        (args : List Bytes) (inner : Bool)
        → is_empty sock ≡ false
        → after_flags h args (some (flags inner, word ∷ argv)) ≡ (
            if inner
            then ran_inner (ns_run_inner h workdir dirs (word ∷ argv))
            else ns_run_outer h args)
    unfolding flags
    after_flags-flags args inner s =
        ap
          (λ b.
            if b || false
            then ns_left (pos 2)
            else if inner
            then ran_inner (ns_run_inner h workdir dirs (word ∷ argv))
            else ns_run_outer h args)
          s

    first_stage :
        (again : Bytes) (w : Waited) (args : List Bytes)
        → is_empty sock ≡ false
        → args ≡ ns_args sock workdir dirs (word ∷ argv)
        → h.executable ≡ some again
        → h.start_outer (reexec_of h again args) ≡ some w
        → cmd_ns_run h args ≡ ran_again (reexec_of h again args) (wait_status w)
    unfolding cmd_ns_run ns_run_outer flags
    first_stage again w args s e x y =
        ap (after_flags h args)
          (ap (h.parse no_flags) e ∙ parse-ns_args sock workdir dirs (word ∷ argv) no_flags)
        ∙ after_flags-flags args false s
        ∙ ap (reexec_from h args) x
        ∙ ap (waited_for (reexec_of h again args)) y

    second_stage :
        (args : List Bytes)
        → is_empty sock ≡ false
        → args ≡ ns_args sock workdir dirs (word ∷ argv)
        → cmd_ns_run h (codes "-inner" ∷ args)
          ≡ ran_inner (ns_run_inner h workdir dirs (word ∷ argv))
    unfolding cmd_ns_run flags
    second_stage args s e =
        ap (after_flags h (codes "-inner" ∷ args)) (
          p.takes_inner no_flags args
          ∙ ap (h.parse (record no_flags { inner = true })) e
          ∙ parse-ns_args sock workdir dirs (word ∷ argv) (record no_flags { inner = true }))
        ∙ after_flags-flags (codes "-inner" ∷ args) true s

  -- The command that `wrapMountNamespace` makes is rca's `_nsrun`, and starts rca's `_nsrun` a second
  -- time, with the arguments that make it the inner stage; and this mounts the remote prefixes, in
  -- order, then runs the command that was wrapped, in the working directory, then unmounts the prefixes,
  -- and ends with the command's status. It holds where package flag reads these flags, the adapter has a
  -- socket, the wrapped command is not empty, the second process and the command start, and the
  -- prefixes are there and can be mounted.
  pub cmd_ns_run-in_namespace :
      (self again sock workdir word : Bytes) (argv dirs : List Bytes) (c : Command) (w v : Waited)
      → is_empty sock ≡ false
      → c.argv ≡ word ∷ argv
      → h.executable ≡ some again
      → h.start_outer (reexec_of h again (handed self c sock workdir dirs)) ≡ some w
      → AreMountable h dirs
      → h.start (map mounted dirs) (record { argv = word ∷ argv; dir = workdir }) ≡ some v
      → (dispatch (drop 1 ((in_namespace self c sock workdir dirs).argv))
          ≡ ns_run (handed self c sock workdir dirs))
        × (cmd_ns_run h (handed self c sock workdir dirs)
            ≡ ran_again (reexec_of h again (handed self c sock workdir dirs)) (wait_status w))
        × (dispatch (drop 1 ((reexec_of h again (handed self c sock workdir dirs)).argv))
            ≡ ns_run (codes "-inner" ∷ handed self c sock workdir dirs))
        × (cmd_ns_run h (codes "-inner" ∷ handed self c sock workdir dirs)
            ≡ ran_inner (record {
              trace =
                  map mounted dirs
                  ++ (started (record { argv = word ∷ argv; dir = workdir }) ∷ map unmounting dirs);
              status = wait_status v;
            }))
  unfolding in_namespace ns_args dispatch equal
  cmd_ns_run-in_namespace self again sock workdir word argv dirs c w v s a x y can starts = (
    refl,
    first_stage sock workdir dirs word argv again w _ s args x y,
    refl,
    second_stage sock workdir dirs word argv (handed self c sock workdir dirs) s args
        ∙ ap ran_inner (ns_run_inner-mounts h workdir dirs (word ∷ argv) v can starts),
  )
    where
      args : handed self c sock workdir dirs ≡ ns_args sock workdir dirs (word ∷ argv)
      args =
          ap
            (λ x.
              codes "-adapter-sock"
              ∷ sock
              ∷ codes "-workdir"
              ∷ workdir
              ∷ (mount_args dirs ++ (codes "--" ∷ x)))
            a
