-- ===== src/Cli/Namespace/Mounts.antt =====
-- The inner stage where nothing fails.
use remote_adapter.Prelude.{
  ◌≡◌, ◌∙◌, refl, ap, sym, Bool, true, false, some, List, [], ◌∷◌, ◌++◌, Bytes, map, All,
  append-nil, append_assoc,
}
use remote_adapter.Subprocess.Child.{Waited}
use remote_adapter.Cli.Run.Wrapped.{wait_status}
use remote_adapter.Cli.Namespace.{
  NsHost, NsTarget, NsEvent, NsRun, mounted, unmounting, started, Mounting, nothing_mounted,
  unmount_all, mount_one, mount_all, and_then, after_start, after_mounts, ns_run_inner,
}

module _ (h : NsHost) where
  -- The directories are there and can be mounted, whatever was done before.
  abbrev pub AreMountable : List Bytes → Type 0
  AreMountable dirs =
      (es : List NsEvent) → All (λ d. (h.missing es d ≡ false) × (h.mount es d ≡ true)) dirs

  abbrev with_mounts : List Bytes → Mounting → Mounting
  with_mounts dirs m = record {
    trace = m.trace ++ map mounted dirs;
    servers = m.servers ++ dirs;
    created = m.created;
  }

  abbrev with_lists : Mounting → List Bytes → List NsEvent → Bool × Mounting
  with_lists m servers trace =
      (true, record { trace = trace; servers = servers; created = m.created })

  mount_one-with_mounts :
      (dir : Bytes) (m : Mounting)
      → (h.missing m.trace dir ≡ false) × (h.mount m.trace dir ≡ true)
      → mount_one h dir m ≡ (true, with_mounts (dir ∷ []) m)
  unfolding mount_one
  mount_one-with_mounts dir m (there, mounts) = rw there (rw mounts refl)

  mount_all-with_mounts :
      (dirs : List Bytes) (m : Mounting)
      → AreMountable dirs
      → mount_all h dirs m ≡ (true, with_mounts dirs m)
  unfolding mount_all
  mount_all-with_mounts [] m can =
      ap (with_lists m m.servers) (sym (append-nil m.trace))
      ∙ ap (λ x. with_lists m x (m.trace ++ [])) (sym (append-nil m.servers))
  mount_all-with_mounts (dir ∷ dirs) m can =
      ap (and_then (mount_all h dirs)) (mount_one-with_mounts dir m (can m.trace).0)
      ∙ mount_all-with_mounts dirs (with_mounts (dir ∷ []) m) (λ es. (can es).1)
      ∙ ap (with_lists m ((m.servers ++ (dir ∷ [])) ++ dirs))
          (append_assoc m.trace (mounted dir ∷ []) (map mounted dirs))
      ∙ ap (λ x. with_lists m x (m.trace ++ (mounted dir ∷ map mounted dirs)))
          (append_assoc m.servers (dir ∷ []) dirs)

  abbrev ended : Waited → List NsEvent → NsRun
  ended v trace = record { trace = trace; status = wait_status v }

  -- Where the directories can be mounted and the target starts, they are mounted in order, then the target
  -- runs, and then they are unmounted; its status is the stage's.
  pub ns_run_inner-mounts :
      (workdir : Bytes) (dirs argv : List Bytes) (v : Waited)
      → AreMountable dirs
      → h.start (map mounted dirs) (record { argv = argv; dir = workdir }) ≡ some v
      → ns_run_inner h workdir dirs argv ≡ record {
        trace =
            map mounted dirs
            ++ (started (record { argv = argv; dir = workdir }) ∷ map unmounting dirs);
        status = wait_status v;
      }
  unfolding ns_run_inner unmount_all
  ns_run_inner-mounts workdir dirs argv v can starts =
      let c : NsTarget = record { argv = argv; dir = workdir } in
      ap (after_mounts h c) (mount_all-with_mounts dirs nothing_mounted can)
      ∙ ap (after_start c (with_mounts dirs nothing_mounted)) starts
      ∙ ap (ended v) (
          append_assoc (map mounted dirs) (started c ∷ []) (map unmounting dirs ++ [])
          ∙ ap (λ x. map mounted dirs ++ (started c ∷ x)) (append-nil (map unmounting dirs)))
