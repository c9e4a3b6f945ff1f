-- ===== src/Cli/Namespace/Teardown.antt =====
-- What the inner stage leaves on its host.
use remote_adapter.Prelude.{
  ◌≡◌, ◌∙◌, refl, ap, sym, inl, inr, ◌⊎◌, Bool, true, false, none, some, Option, List, [], ◌∷◌,
  ◌++◌, Bytes, map, append-nil, append_assoc, either_keeps,
}
use remote_adapter.Subprocess.Child.{Waited}
use remote_adapter.Cli.Namespace.{
  NsHost, NsTarget, NsEvent, made, mounted, unmounting, removing, started, Mounting,
  nothing_mounted, unmount_all, mount_made, mount_one, mount_all, and_then, after_start,
  after_mounts, ns_run_inner,
}
use remote_adapter.Cli.Namespace.Events.{
  mounted_dir, unmounting_dir, made_dir, removing_dir, started_target, picked, picked-append,
  picked-snoc, picked-map, picked-map_each,
}

-- The two variables name what was done, and nothing was undone or started.
record Tracked (m : Mounting) : Type 0 where
  mounts : picked mounted_dir m.trace ≡ m.servers
  makes : picked made_dir m.trace ≡ m.created
  unmounts : picked unmounting_dir m.trace ≡ []
  removes : picked removing_dir m.trace ≡ []
  starts : picked started_target m.trace ≡ []

-- What a round has done: where it mounted, the directory is the last of the servers.
abbrev IsRound : Mounting → List Bytes → Bool × Mounting → Type 0
IsRound m dirs (b, n) = Tracked n × (b ≡ true → n.servers ≡ m.servers ++ dirs)

make-Tracked :
    (dir : Bytes) (m : Mounting)
    → Tracked m
    → Tracked (record {
      trace = m.trace ++ (made dir ∷ []);
      servers = m.servers;
      created = m.created ++ (dir ∷ []);
    })
make-Tracked dir m t = record {
  mounts = picked-snoc mounted_dir m.trace (made dir) ∙ append-nil _ ∙ t.mounts;
  makes = picked-snoc made_dir m.trace (made dir) ∙ ap (λ x. x ++ (dir ∷ [])) t.makes;
  unmounts = picked-snoc unmounting_dir m.trace (made dir) ∙ append-nil _ ∙ t.unmounts;
  removes = picked-snoc removing_dir m.trace (made dir) ∙ append-nil _ ∙ t.removes;
  starts = picked-snoc started_target m.trace (made dir) ∙ append-nil _ ∙ t.starts;
}

mount-Tracked :
    (dir : Bytes) (m : Mounting)
    → Tracked m
    → Tracked (record {
      trace = m.trace ++ (mounted dir ∷ []);
      servers = m.servers ++ (dir ∷ []);
      created = m.created;
    })
mount-Tracked dir m t = record {
  mounts = picked-snoc mounted_dir m.trace (mounted dir) ∙ ap (λ x. x ++ (dir ∷ [])) t.mounts;
  makes = picked-snoc made_dir m.trace (mounted dir) ∙ append-nil _ ∙ t.makes;
  unmounts = picked-snoc unmounting_dir m.trace (mounted dir) ∙ append-nil _ ∙ t.unmounts;
  removes = picked-snoc removing_dir m.trace (mounted dir) ∙ append-nil _ ∙ t.removes;
  starts = picked-snoc started_target m.trace (mounted dir) ∙ append-nil _ ∙ t.starts;
}

module _ (h : NsHost) where
  mount_made-IsRound :
      (dir : Bytes) (m : Mounting) → Tracked m → IsRound m (dir ∷ []) (mount_made h dir m)
  mount_made-IsRound dir m t =
      either_keeps (IsRound m (dir ∷ [])) (h.mount m.trace dir) (mount-Tracked dir m t, λ e. refl)
        (t, λ e. cc e)

  mount_one-IsRound :
      (dir : Bytes) (m : Mounting) → Tracked m → IsRound m (dir ∷ []) (mount_one h dir m)
  unfolding mount_one
  mount_one-IsRound dir m t =
      either_keeps (IsRound m (dir ∷ [])) (h.missing m.trace dir)
        (either_keeps (IsRound m (dir ∷ [])) (h.mkdir_all m.trace dir)
          (mount_made-IsRound dir _ (make-Tracked dir m t)) (t, λ e. cc e))
        (mount_made-IsRound dir m t)

  and_then-IsRound :
      (dir : Bytes) (dirs : List Bytes) (m : Mounting) (rounds : Mounting → Bool × Mounting)
      (r : Bool × Mounting)
      → ((n : Mounting) → Tracked n → IsRound n dirs (rounds n))
      → IsRound m (dir ∷ []) r
      → IsRound m (dir ∷ dirs) (and_then rounds r)
  and_then-IsRound dir dirs m rounds (false, n) more (t, s) = (t, λ e. cc e)
  and_then-IsRound dir dirs m rounds (true, n) more (t, s) =
      let (t', s') = more n t in
      (t', λ e. s' e ∙ ap (λ x. x ++ dirs) (s refl) ∙ append_assoc m.servers (dir ∷ []) dirs)

  mount_all-IsRound :
      (dirs : List Bytes) (m : Mounting) → Tracked m → IsRound m dirs (mount_all h dirs m)
  unfolding mount_all
  mount_all-IsRound [] m t = (t, λ e. sym (append-nil m.servers))
  mount_all-IsRound (dir ∷ dirs) m t =
      and_then-IsRound dir dirs m (mount_all h dirs) (mount_one h dir m) (mount_all-IsRound dirs)
        (mount_one-IsRound dir m t)

picked-unmount_all :
    {A : Type 0} (f : NsEvent → List A) (m : Mounting)
    → picked f (unmount_all m)
      ≡ picked f m.trace
        ++ (picked f (map unmounting m.servers) ++ picked f (map removing m.created))
unfolding unmount_all
picked-unmount_all f m =
    picked-append f m.trace _
    ∙ ap (◌++◌ (picked f m.trace))
        (picked-append f (map unmounting m.servers) (map removing m.created))

picked_neither :
    {A : Type 0} (f : NsEvent → List A) (m : Mounting)
    → ((d : Bytes) → f (unmounting d) ≡ [])
    → ((d : Bytes) → f (removing d) ≡ [])
    → picked f (unmount_all m) ≡ picked f m.trace
picked_neither f m u r =
    picked-unmount_all f m
    ∙ ap (◌++◌ (picked f m.trace))
        (cc (picked-map f unmounting u m.servers, picked-map f removing r m.created))
    ∙ append-nil _

-- Unmount is called for every mount, and os.Remove for every directory that os.MkdirAll was called for, in
-- the order of making.
abbrev pub IsUndone : List NsEvent → Type 0
IsUndone trace =
    (picked unmounting_dir trace ≡ picked mounted_dir trace)
    × (picked removing_dir trace ≡ picked made_dir trace)

unmount_all-IsUndone :
    (m : Mounting)
    → picked mounted_dir m.trace ≡ m.servers
    → picked made_dir m.trace ≡ m.created
    → picked unmounting_dir m.trace ≡ []
    → picked removing_dir m.trace ≡ []
    → IsUndone (unmount_all m)
unmount_all-IsUndone m mounts makes unmounts removes = (
  picked-unmount_all unmounting_dir m
      ∙ ap
          (λ x.
            x
            ++ (picked unmounting_dir (map unmounting m.servers)
                ++ picked unmounting_dir (map removing m.created)))
          unmounts
      ∙ ap (λ x. x ++ picked unmounting_dir (map removing m.created))
          (picked-map_each unmounting_dir unmounting (λ d. refl) m.servers)
      ∙ ap (◌++◌ m.servers) (picked-map unmounting_dir removing (λ d. refl) m.created)
      ∙ append-nil _
      ∙ sym (picked_neither mounted_dir m (λ d. refl) (λ d. refl) ∙ mounts),
  picked-unmount_all removing_dir m
      ∙ ap
          (λ x.
            x
            ++ (picked removing_dir (map unmounting m.servers)
                ++ picked removing_dir (map removing m.created)))
          removes
      ∙ ap (λ x. x ++ picked removing_dir (map removing m.created))
          (picked-map removing_dir unmounting (λ d. refl) m.servers)
      ∙ picked-map_each removing_dir removing (λ d. refl) m.created
      ∙ sym (picked_neither made_dir m (λ d. refl) (λ d. refl) ∙ makes),
)

-- Nothing was started; or the target was, once, with all of the directories mounted and no Unmount called.
abbrev pub IsCovered : List Bytes → NsTarget → List NsEvent → Type 0
IsCovered dirs c trace =
    (picked started_target trace ≡ [])
    ⊎ ((setup : List NsEvent) × (teardown : List NsEvent) × (trace
          ≡ setup ++ (started c ∷ teardown))
        × (picked mounted_dir setup ≡ dirs)
        × (picked unmounting_dir setup ≡ [])
        × (picked started_target trace ≡ c ∷ []))

abbrev with_start : NsTarget → Mounting → Mounting
with_start c m = record m { trace = m.trace ++ (started c ∷ []) }

module _ (dirs : List Bytes) (c : NsTarget) where
  not_started :
      (m : Mounting) → Tracked m → IsUndone (unmount_all m) × IsCovered dirs c (unmount_all m)
  not_started m t = (
    unmount_all-IsUndone m t.mounts t.makes t.unmounts t.removes,
    inl (picked_neither started_target m (λ d. refl) (λ d. refl) ∙ t.starts),
  )

  with_start-IsUndone : (m : Mounting) → Tracked m → IsUndone (unmount_all (with_start c m))
  with_start-IsUndone m t =
      unmount_all-IsUndone (with_start c m)
        (picked-snoc mounted_dir m.trace (started c) ∙ append-nil _ ∙ t.mounts)
        (picked-snoc made_dir m.trace (started c) ∙ append-nil _ ∙ t.makes)
        (picked-snoc unmounting_dir m.trace (started c) ∙ append-nil _ ∙ t.unmounts)
        (picked-snoc removing_dir m.trace (started c) ∙ append-nil _ ∙ t.removes)

  with_start-IsCovered :
      (m : Mounting)
      → Tracked m
      → m.servers ≡ dirs
      → IsCovered dirs c (unmount_all (with_start c m))
  with_start-IsCovered m t s = inr (
    m.trace,
    map unmounting m.servers ++ map removing m.created,
    unfold unmount_all in append_assoc m.trace (started c ∷ []) _,
    t.mounts ∙ s,
    t.unmounts,
    picked_neither started_target (with_start c m) (λ d. refl) (λ d. refl)
        ∙ picked-snoc started_target m.trace (started c)
        ∙ ap (λ x. x ++ (c ∷ [])) t.starts,
  )

  after_start-IsUndone :
      (m : Mounting) (w : Option Waited)
      → Tracked m
      → m.servers ≡ dirs
      → IsUndone ((after_start c m w).trace) × IsCovered dirs c ((after_start c m w).trace)
  after_start-IsUndone m none t s = not_started m t
  after_start-IsUndone m (some w) t s = (with_start-IsUndone m t, with_start-IsCovered m t s)

  after_mounts-IsUndone :
      (h : NsHost) (r : Bool × Mounting)
      → IsRound nothing_mounted dirs r
      → IsUndone ((after_mounts h c r).trace) × IsCovered dirs c ((after_mounts h c r).trace)
  after_mounts-IsUndone h (false, m) (t, s) = not_started m t
  after_mounts-IsUndone h (true, m) (t, s) = after_start-IsUndone m (h.start m.trace c) t (s refl)

nothing_mounted-Tracked : Tracked nothing_mounted
unfolding picked
nothing_mounted-Tracked = record {
  mounts = refl;
  makes = refl;
  unmounts = refl;
  removes = refl;
  starts = refl;
}

-- However `rca _nsrun` ends, also where a directory cannot be made or mounted or the target does not
-- start: it calls Unmount for every mount that it made, in order, and os.Remove for every directory that
-- os.MkdirAll made for it, in order, for no other and once for each, whatever becomes of these calls; and the
-- target runs, at most once, only with all of the directories mounted and no Unmount called yet.
pub ns_run_inner-IsUndone :
    (h : NsHost) (workdir : Bytes) (dirs argv : List Bytes)
    → IsUndone ((ns_run_inner h workdir dirs argv).trace)
      × IsCovered dirs
          (record { argv = argv; dir = workdir })
          ((ns_run_inner h workdir dirs argv).trace)
unfolding ns_run_inner
ns_run_inner-IsUndone h workdir dirs argv =
    after_mounts-IsUndone dirs (record { argv = argv; dir = workdir }) h
      (mount_all h dirs nothing_mounted)
      (mount_all-IsRound h dirs nothing_mounted nothing_mounted-Tracked)
