-- ===== src/Cli/Namespace.antt =====
-- cmd/rca/nsrun_linux.go: `rca _nsrun`, which mounts the routed directories around the target.
pub mod Events
pub mod Teardown
pub mod Mounts
pub mod Handover
use remote_adapter.Prelude.{
  ℕ, Bool, true, false, ◌||◌, Option, none, some, List, [], ◌∷◌, ◌++◌, Bytes, codes, map, ◌==◌,
  if◌then◌else◌,
}
use remote_adapter.Prelude.Int.{ℤ, pos}
use remote_adapter.Prelude.FilePath.{is_empty}
use remote_adapter.Subprocess.Child.{Waited}
use remote_adapter.Cli.Run.Wrapped.{wait_status}

-- The flags of `cmdNsRun`.
pub record NsFlags : Type 0 where
  pub adapter_sock : Bytes
  pub workdir : Bytes
  pub inner : Bool
  pub mounts : List Bytes

abbrev pub no_flags : NsFlags
no_flags = record { adapter_sock = []; workdir = []; inner = false; mounts = [] }

-- The *exec.Cmd of the target: its argument vector and its directory.
pub record NsTarget : Type 0 where
  pub argv : List Bytes
  pub dir : Bytes

-- The *exec.Cmd of the outer stage. `mapped` is the user and the group that a new user namespace maps
-- to themselves, with CAP_SYS_ADMIN kept over the exec; `none` where the caller is root.
pub record Reexec : Type 0 where
  pub argv : List Bytes
  pub mapped : Option (ℕ × ℕ)

-- What the inner stage does to its host, in order: `made` is an os.MkdirAll that succeeded, which makes
-- missing parents too; `mounted` a mount that succeeded; `unmounting` and `removing` are the calls of Unmount
-- and os.Remove, whose errors the code drops, so that they may have done nothing.
pub data NsEvent : Type 0 where
  made mounted unmounting removing : Bytes → NsEvent
  started : NsTarget → NsEvent

-- The host of `rca _nsrun`; what it answers may depend on what was done to it before. `parse` is package
-- flag, on the flags set so far, with the arguments that it leaves; `missing` is os.IsNotExist of a
-- Stat; `mount` is `MountRouted`, which leaves no mount where it fails; `start` clears the ambient
-- capabilities, starts a command and waits for it. `false` and `none` are errors.
pub record NsHost : Type 0 where
  pub parse : NsFlags → List Bytes → Option (NsFlags × List Bytes)
  pub executable : Option Bytes
  pub uid : ℕ
  pub gid : ℕ
  pub missing : List NsEvent → Bytes → Bool
  pub mkdir_all : List NsEvent → Bytes → Bool
  pub mount : List NsEvent → Bytes → Bool
  pub start : List NsEvent → NsTarget → Option Waited
  pub start_outer : Reexec → Option Waited

-- The variables `servers` and `created`, after the events.
pub record Mounting : Type 0 where
  pub trace : List NsEvent
  pub servers : List Bytes
  pub created : List Bytes

abbrev pub nothing_mounted : Mounting
nothing_mounted = record { trace = []; servers = []; created = [] }

abbrev pub do_event : NsEvent → Mounting → Mounting
do_event e m = record m { trace = m.trace ++ (e ∷ []) }

-- `unmountAll`.
unfoldable pub unmount_all : Mounting → List NsEvent
unmount_all m = m.trace ++ (map unmounting m.servers ++ map removing m.created)

abbrev pub mount_made : NsHost → Bytes → Mounting → Bool × Mounting
mount_made h dir m =
    if h.mount m.trace dir
    then (true, record (do_event (mounted dir) m) { servers = m.servers ++ (dir ∷ []) })
    else (false, m)

abbrev pub make_and_mount : NsHost → Bytes → Mounting → Bool × Mounting
make_and_mount h dir m =
    if h.mkdir_all m.trace dir
    then mount_made h dir (record (do_event (made dir) m) { created = m.created ++ (dir ∷ []) })
    else (false, m)

-- One round of the loop over the mounts.
unfoldable pub mount_one : NsHost → Bytes → Mounting → Bool × Mounting
mount_one h dir m = if h.missing m.trace dir then make_and_mount h dir m else mount_made h dir m

abbrev pub and_then : (Mounting → Bool × Mounting) → Bool × Mounting → Bool × Mounting
and_then rounds (false, m) = (false, m)
and_then rounds (true, m) = rounds m

unfoldable pub mount_all : NsHost → List Bytes → Mounting → Bool × Mounting
mount_all h [] m = (true, m)
mount_all h (dir ∷ dirs) m = and_then (mount_all h dirs) (mount_one h dir m)

-- What the inner stage did, and its status.
pub record NsRun : Type 0 where
  pub trace : List NsEvent
  pub status : ℤ

abbrev pub after_start : NsTarget → Mounting → Option Waited → NsRun
after_start c m none = record { trace = unmount_all m; status = pos 1 }
after_start c m (some w) = record {
  trace = unmount_all (do_event (started c) m);
  status = wait_status w;
}

abbrev pub after_mounts : NsHost → NsTarget → Bool × Mounting → NsRun
after_mounts h c (false, m) = record { trace = unmount_all m; status = pos 1 }
after_mounts h c (true, m) = after_start c m (h.start m.trace c)

-- `nsRunInner`.
unfoldable pub ns_run_inner : NsHost → Bytes → List Bytes → List Bytes → NsRun
ns_run_inner h workdir mounts argv =
    after_mounts h (record { argv = argv; dir = workdir }) (mount_all h mounts nothing_mounted)

-- How `rca _nsrun` ends: with a status, having started itself again, or as the inner stage.
pub data NsEnding : Type 0 where
  ns_left : ℤ → NsEnding
  ran_again : Reexec → ℤ → NsEnding
  ran_inner : NsRun → NsEnding

abbrev pub waited_for : Reexec → Option Waited → NsEnding
waited_for r none = ns_left (pos 1)
waited_for r (some w) = ran_again r (wait_status w)

abbrev pub reexec_of : NsHost → Bytes → List Bytes → Reexec
reexec_of h self args = record {
  argv = self ∷ codes "_nsrun" ∷ codes "-inner" ∷ args;
  mapped = if h.uid == 0 then none else some (h.uid, h.gid);
}

abbrev pub reexec_from : NsHost → List Bytes → Option Bytes → NsEnding
reexec_from h args none = ns_left (pos 1)
reexec_from h args (some self) =
    waited_for (reexec_of h self args) (h.start_outer (reexec_of h self args))

-- `nsRunOuter`.
unfoldable pub ns_run_outer : NsHost → List Bytes → NsEnding
ns_run_outer h args = reexec_from h args h.executable

abbrev pub after_flags : NsHost → List Bytes → Option (NsFlags × List Bytes) → NsEnding
after_flags h args none = ns_left (pos 2)
after_flags h args (some (f, target)) =
    if is_empty f.adapter_sock || is_empty target
    then ns_left (pos 2)
    else if f.inner
    then ran_inner (ns_run_inner h f.workdir f.mounts target)
    else ns_run_outer h args

-- `cmdNsRun`.
unfoldable pub cmd_ns_run : NsHost → List Bytes → NsEnding
cmd_ns_run h args = after_flags h args (h.parse no_flags args)
