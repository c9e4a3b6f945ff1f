-- ===== src/Cli/Fuse.antt =====
-- cmd/rca/fuse_linux.go: `rca _fuse`; `MountRouted` and `mountOpts` of internal/linuxfuse/fs_linux.go.
use remote_adapter.Prelude.{
  ℕ, ◌≡◌, refl, ap, sym, ◌∙◌, Bool, true, false, not, ◌||◌, Option, none, some, List, Bytes, codes,
  if◌then◌else◌,
}
use remote_adapter.Prelude.FilePath.{is_empty}
use remote_adapter.Fuse.Nodes.{Node, dir_node}

pub record FuseFlags : Type 0 where
  pub mount : Bytes
  pub root : Bytes
  pub direct_mount : Bool
  pub adapter_sock : Bytes

-- The fields of fs.Options that are set.
pub record MountOptions : Type 0 where
  pub fs_name : Bytes
  pub name : Bytes
  pub direct_mount : Bool
  pub direct_mount_strict : Bool
  pub debug : Bool

-- What is mounted: where, which node it shows, over which socket of an adapter, and how.
pub record Mounting : Type 0 where
  pub dir : Bytes
  pub shows : Node
  pub socket : Bytes
  pub options : MountOptions

-- What `cmdFuse` asks of package flag and of the host; `none` and `false` are errors. `fs_mount` is fs.Mount.
pub record FuseHost : Type 0 where
  pub flags : List Bytes → Option FuseFlags
  pub getenv : Bytes → Bytes
  pub mkdir_all : Bytes → Bool
  pub fs_mount : Mounting → Bool

-- How `cmdFuse` ends: with a status and nothing mounted; or with a mount that was served until it went.
pub data FuseEnding : Type 0 where
  not_mounted : ℕ → FuseEnding
  was_mounted : Mounting → FuseEnding

module _ (h : FuseHost) where
  -- `mountOpts`.
  unfoldable pub mount_opts : Bytes → Bool → MountOptions
  mount_opts name direct = record {
    fs_name = codes "rcc-vfs";
    name = name;
    direct_mount = direct;
    direct_mount_strict = direct;
    debug = not (is_empty (h.getenv (codes "RCC_FUSE_DEBUG")));
  }

  -- What `MountRouted` asks for, with a client of the socket.
  unfoldable pub mount_routed : Bytes → Bytes → Bytes → Bool → Mounting
  unfolding mount_opts
  mount_routed dir remote socket direct = record {
    dir = dir;
    shows = dir_node remote;
    socket = socket;
    options = mount_opts (codes "rcc-routed") direct;
  }

  abbrev pub mount_or_fail : Mounting → FuseEnding
  mount_or_fail m = if h.fs_mount m then was_mounted m else not_mounted 1

  abbrev pub root_of : FuseFlags → Bytes
  root_of f = if is_empty f.root then f.mount else f.root

  abbrev pub with_flags : Option FuseFlags → FuseEnding
  with_flags none = not_mounted 2
  with_flags (some f) =
      if is_empty f.mount || is_empty f.adapter_sock
      then not_mounted 2
      else if h.mkdir_all f.mount
      then mount_or_fail (mount_routed f.mount (root_of f) f.adapter_sock f.direct_mount)
      else not_mounted 1

  -- `cmdFuse`, up to the unmount that ends it.
  unfoldable pub cmd_fuse : List Bytes → FuseEnding
  unfolding mount_routed
  cmd_fuse args = with_flags (h.flags args)

unless :
    (b : Bool) (n : ℕ) {x : FuseEnding} {m : Mounting}
    → (if b then not_mounted n else x) ≡ was_mounted m
    → (b ≡ false) × (x ≡ was_mounted m)
unless true n e = cc e
unless false n e = (refl, e)

only_if :
    (b : Bool) (n : ℕ) {x : FuseEnding} {m : Mounting}
    → (if b then x else not_mounted n) ≡ was_mounted m
    → (b ≡ true) × (x ≡ was_mounted m)
only_if true n e = (refl, e)
only_if false n e = cc e

-- What a run of `rca _fuse` has mounted: the flags name a directory and a socket, the directory was made,
-- and the host took this mount.
pub record IsMounted (h : FuseHost) (f : FuseFlags) (m : Mounting) : Type 0 where
  pub given : (is_empty f.mount || is_empty f.adapter_sock) ≡ false
  pub made : h.mkdir_all f.mount ≡ true
  pub taken : h.fs_mount m ≡ true
  pub at : m.dir ≡ f.mount
  pub shown : m.shows ≡ dir_node (if is_empty f.root then f.mount else f.root)

-- `rca _fuse` mounts only where its flags name a mount point and a socket, on the mount point, once that
-- is made, and shows there the remote directory of its root, which is the mount point itself if no root
-- is given.
pub cmd_fuse-IsMounted :
    (h : FuseHost) (args : List Bytes) (f : FuseFlags) (m : Mounting)
    → h.flags args ≡ some f
    → cmd_fuse h args ≡ was_mounted m
    → IsMounted h f m
unfolding cmd_fuse mount_routed
cmd_fuse-IsMounted h args f m parsed e =
    let (given, rest) =
      unless (is_empty f.mount || is_empty f.adapter_sock) 2 (sym (ap (with_flags h) parsed) ∙ e) in
    let (made, last) = only_if (h.mkdir_all f.mount) 1 rest in
    let asked = mount_routed h f.mount (root_of h f) f.adapter_sock f.direct_mount in
    let (taken, same) = only_if (h.fs_mount asked) 1 last in
    let this = mounting_inj asked m same in
    record {
      given = given;
      made = made;
      taken = ap h.fs_mount (sym this) ∙ taken;
      at = ap (λ x. x.dir) (sym this);
      shown = ap (λ x. x.shows) (sym this);
    }
  where
    mounting_inj : (a b : Mounting) → was_mounted a ≡ was_mounted b → a ≡ b
    mounting_inj a b e = cc e
