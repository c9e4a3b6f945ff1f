-- ===== src/Fuse/Nodes.antt =====
-- internal/linuxfuse/fs_linux.go: the operations of a directory and of a file. The kernel's requests and
-- the inode tree are go-fuse's; an operation here is what it sends and what it hands back.
use remote_adapter.Prelude.{
  ℕ, ◌%◌, ◌^◌, Bool, Option, none, some, List, [], ◌∷◌, Bytes, bit_and, bit_or, ◌==◌, if◌then◌else◌,
}
use remote_adapter.Prelude.Int.{ℤ, to_word, of_word, is_zero}
use remote_adapter.Prelude.FilePath.{join_path}
use remote_adapter.Protocol.Types.{
  op_stat, op_setattr, op_readdir, op_create, op_mkdir, op_unlink, op_rename, op_open, op_pread,
  op_pwrite, op_close, Request, Response, blank_request, is_dir, set_mode, set_size, set_atime,
  set_mtime, unlink_rmdir, dt_unknown,
}
use remote_adapter.Executor.Fs.{ebadf, einval}
use remote_adapter.Adapter.Link.{Link}
use remote_adapter.Adapter.Session.{exdev}
use remote_adapter.Fuse.Client.{Client, call}
use remote_adapter.Fuse.Attr.{
  Attr, fill_attr, StableAttr, stable_attr, s_ifdir, s_ifreg, errno_of, dirent_mode,
}

-- An operation's answer to the kernel, or its error number.
pub data Reply {ℓ} (A : Type ℓ) : Type ℓ where
  good : A → Reply A
  errno : ℕ → Reply A

pub data Node : Type 0 where
  dir_node : Bytes → Node
  file_node : Bytes → Node

-- A child as it is handed to the kernel.
pub record Entry : Type 0 where
  pub node : Node
  pub attr : Attr
  pub stable : StableAttr

-- What a fuse.SetAttrIn asks for; the stamps in Unix nanoseconds.
pub record SetAttrIn : Type 0 where
  pub mode : Option ℕ
  pub size : Option ℕ
  pub atime : Option ℤ
  pub mtime : Option ℤ

pub record DirEntry : Type 0 where
  pub name : Bytes
  pub mode : ℕ

-- An answer with its error number, or what is made of it.
abbrev pub checked {ℓ} : {A : Type ℓ} → (Response → A) → Response → Reply A
checked f a = if is_zero a.error then good (f a) else errno (errno_of a.error)

-- A directory or a file, as the mode that was reported says.
unfoldable pub entry_of : Bytes → Attr → Response → Entry
entry_of path out a =
    if is_dir a
    then record { node = dir_node path; attr = fill_attr out a; stable = stable_attr path s_ifdir }
    else record { node = file_node path; attr = fill_attr out a; stable = stable_attr path s_ifreg }

abbrev pub ask_mode : Option ℕ → Request → Request
ask_mode none r = r
ask_mode (some m) r = record r { mask = bit_or r.mask set_mode; mode = m }

abbrev pub ask_size : Option ℕ → Request → Request
ask_size none r = r
ask_size (some n) r = record r { mask = bit_or r.mask set_size; size = of_word (2 ^ 64) (2 ^ 63) n }

abbrev pub ask_atime : Option ℤ → Request → Request
ask_atime none r = r
ask_atime (some t) r = record r { mask = bit_or r.mask set_atime; atime = t }

abbrev pub ask_mtime : Option ℤ → Request → Request
ask_mtime none r = r
ask_mtime (some t) r = record r { mask = bit_or r.mask set_mtime; mtime = t }

-- The request that `setattr` builds.
unfoldable pub setattr_request : Bytes → SetAttrIn → Request
setattr_request path i = ask_mtime i.mtime (
    ask_atime i.atime
      (ask_size i.size (ask_mode i.mode (record (blank_request op_setattr) { path = path }))))

-- A name without a type is listed with type 0.
unfoldable pub dir_entries : List Bytes → List ℕ → List DirEntry
dir_entries [] ts = []
dir_entries (n ∷ ns) [] = record { name = n; mode = dirent_mode dt_unknown } ∷ dir_entries ns []
dir_entries (n ∷ ns) (t ∷ ts) = record { name = n; mode = dirent_mode t } ∷ dir_entries ns ts

-- O_ACCMODE is 3 and O_RDONLY is 0: only a read-only handle keeps the page cache.
abbrev pub keeps_cache : ℕ → Bool
keeps_cache flags = bit_and flags 3 == 0

abbrev pub created : Bytes → Attr → Response → Entry × ℕ
created path out a = (
  record { node = file_node path; attr = fill_attr out a; stable = stable_attr path s_ifreg },
  a.handle,
)

module _ {k : Link} where
  abbrev pub replied {ℓ} : {A : Type ℓ} → (Response → A) → Response × Client k → Reply A × Client k
  replied f (a, c) = (checked f a, c)

  unfoldable pub new_node : Bytes → Attr → Client k → Reply Entry × Client k
  new_node path out c =
      replied (entry_of path out) (call (record (blank_request op_stat) { path = path }) c)

  unfoldable pub getattr : Bytes → Attr → Client k → Reply Attr × Client k
  getattr path out c =
      replied (fill_attr out) (call (record (blank_request op_stat) { path = path }) c)

  abbrev pub then_getattr : Bytes → Attr → Response × Client k → Reply Attr × Client k
  then_getattr path out (a, c) =
      if is_zero a.error then getattr path out c else (errno (errno_of a.error), c)

  unfoldable pub setattr : Bytes → SetAttrIn → Attr → Client k → Reply Attr × Client k
  unfolding setattr_request
  setattr path i out c =
      let r = setattr_request path i in
      if r.mask == 0 then getattr path out c else then_getattr path out (call r c)

  unfoldable pub readdir : Bytes → Client k → Reply (List DirEntry) × Client k
  readdir path c =
      replied (λ a. dir_entries a.names a.types)
        (call (record (blank_request op_readdir) { path = path }) c)

  unfoldable pub look_up : Bytes → Bytes → Attr → Client k → Reply Entry × Client k
  look_up dir name out c = new_node (join_path dir name) out c

  unfoldable pub create : Bytes → Bytes → ℕ → ℕ → Attr → Client k → Reply (Entry × ℕ) × Client k
  create dir name flags mode out c =
      let path = join_path dir name in
      replied (created path out)
        (call (record (blank_request op_create) { path = path; flags = flags; mode = mode }) c)

  abbrev pub then_new_node : Bytes → Attr → Response × Client k → Reply Entry × Client k
  then_new_node path out (a, c) =
      if is_zero a.error then new_node path out c else (errno (errno_of a.error), c)

  unfoldable pub mkdir : Bytes → Bytes → ℕ → Attr → Client k → Reply Entry × Client k
  mkdir dir name mode out c =
      let path = join_path dir name in
      then_new_node path out (call (record (blank_request op_mkdir) { path = path; mode = mode }) c)

  abbrev pub error_number : Response × Client k → ℕ × Client k
  error_number (a, c) = (errno_of a.error, c)

  unfoldable pub remove : Bytes → Bytes → ℕ → Client k → ℕ × Client k
  remove dir name flags c =
      error_number
        (call (record (blank_request op_unlink) { path = join_path dir name; flags = flags }) c)

  unfoldable pub unlink : Bytes → Bytes → Client k → ℕ × Client k
  unlink dir name = remove dir name 0

  unfoldable pub rmdir : Bytes → Bytes → Client k → ℕ × Client k
  rmdir dir name = remove dir name unlink_rmdir

  abbrev pub rename_into : Bytes → Bytes → Node → Bytes → Client k → ℕ × Client k
  rename_into dir name (file_node p) new_name c = (exdev, c)
  rename_into dir name (dir_node p) new_name c = error_number (
      call
        (record (blank_request op_rename) {
          path = join_path dir name;
          path2 = join_path p new_name;
        })
        c)

  unfoldable pub rename : Bytes → Bytes → Node → Bytes → ℕ → Client k → ℕ × Client k
  rename dir name parent new_name flags c =
      if flags == 0 then rename_into dir name parent new_name c else (einval, c)

  -- The handle, and whether it keeps the page cache.
  unfoldable pub open_file : Bytes → ℕ → Client k → Reply (ℕ × Bool) × Client k
  open_file path flags c =
      replied (λ a. (a.handle, keeps_cache flags))
        (call (record (blank_request op_open) { flags = flags; path = path }) c)

  -- `none` is a handle of another kind.
  unfoldable pub read_file : Option ℕ → ℕ → ℤ → Client k → Reply Bytes × Client k
  read_file none size off c = (errno ebadf, c)
  read_file (some n) size off c =
      replied (λ a. a.body)
        (call (record (blank_request op_pread) { handle = n; off = off; len = size % 2 ^ 32 }) c)

  unfoldable pub write_file : Option ℕ → Bytes → ℤ → Client k → Reply ℕ × Client k
  write_file none body off c = (errno ebadf, c)
  write_file (some n) body off c =
      replied (λ a. to_word (2 ^ 32) a.size)
        (call (record (blank_request op_pwrite) { handle = n; off = off; body = body }) c)

  -- The answer to an `OpClose` is dropped.
  unfoldable pub release : ℕ → Client k → Client k
  release n c = (call (record (blank_request op_close) { handle = n }) c).1
