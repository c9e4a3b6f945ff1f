-- ===== src/Executor/Fs.antt =====
-- internal/executor/fs.go: the file system service. Its calls of the logger are left out.
pub mod Effect
pub mod Handles
pub mod Reports
use remote_adapter.Prelude.{
  ℕ, ◌+◌, ◌%◌, ◌^◌, Bool, true, false, not, ◌||◌, Option, none, some, List, [], ◌∷◌, Bytes, map,
  bit_and, bit_or, ◌==◌, if◌then◌else◌,
}
use remote_adapter.Prelude.Int.{ℤ, pos, neg}
use remote_adapter.Prelude.Table.{lookup, insert, delete}
use remote_adapter.Protocol.Types.{
  Op, op_stat, op_open, op_pread, op_write_file, op_close, op_readdir, op_pwrite, op_create,
  op_unlink, op_mkdir, op_rename, op_setattr, op_server_info, op_other, Request, Response,
  errno_response, unlink_rmdir, set_mode, set_size, set_atime, set_mtime, dt_unknown, dt_dir,
  dt_reg, dt_lnk,
}
use remote_adapter.Executor.Host.{Host, GoError, Outcome, done, failed, FileInfo, DirEntry}

abbrev pub enoent : ℕ
enoent = 2

abbrev pub eio : ℕ
eio = 5

abbrev pub ebadf : ℕ
ebadf = 9

abbrev pub eacces : ℕ
eacces = 13

abbrev pub einval : ℕ
einval = 22

unfoldable pub to_errno : GoError → ℤ
to_errno e = elim e.errno [
  | some n ↦ neg n
  | none ↦ if e.not_exist then neg enoent else if e.permission then neg eacces else neg eio
]

abbrev pub success : Response
success = errno_response (pos 0)

abbrev pub failure : GoError → Response
failure e = errno_response (to_errno e)

unfoldable pub file_mode : FileInfo → ℕ
file_mode fi = if fi.dir then bit_or fi.perm 0o040000 else bit_or fi.perm 0o100000

unfoldable pub dirent_type : DirEntry → ℕ
dirent_type e =
    if e.dir then dt_dir else if e.symlink then dt_lnk else if e.regular then dt_reg else dt_unknown

abbrev pub has_bit : ℕ → ℕ → Bool
has_bit flags bit = not (bit_and flags bit == 0)

-- `os.FileMode(mode).Perm()`
abbrev pub perm_bits : ℕ → ℕ
perm_bits mode = bit_and mode 0o777

abbrev pub asked {ℓ} : {A : Type ℓ} → Bool → A → Option A
asked b a = if b then some a else none

-- An `FSService`, and the host that it serves.
pub record Service (h : Host) : Type 0 where
  pub next : ℕ
  pub files : List (ℕ × h.File)
  pub world : h.World

-- The files of a table are closed one after the other; a failure to close is dropped.
unfoldable pub close_files : (h : Host) → List (ℕ × h.File) → h.World → h.World
close_files h [] w = w
close_files h ((k, f) ∷ files) w = close_files h files (h.file_close f w).1

abbrev pub set_stamps : (h : Host) → Request → h.World → Outcome (Unit {0}) × h.World
set_stamps h r =
    h.chtimes r.path (asked (has_bit r.mask set_atime) r.atime)
      (asked (has_bit r.mask set_mtime) r.mtime)

module _ {h : Host} where
  unfoldable pub new_service : h.World → Service h
  new_service w = record { next = 1; files = []; world = w }

  -- A call on the host that reports its error number alone.
  abbrev pub report : Service h → Outcome (Unit {0}) × h.World → Response × Service h
  report s (done _, w) = (success, record s { world = w })
  report s (failed e, w) = (failure e, record s { world = w })

  abbrev pub looked_at : Service h → Outcome FileInfo × h.World → Response × Service h
  looked_at s (failed e, w) = (failure e, record s { world = w })
  looked_at s (done fi, w) = (
    record success { mode = file_mode fi; size = fi.size; mtime = fi.mtime },
    record s { world = w },
  )

  unfoldable pub serve_stat : Request → Service h → Response × Service h
  serve_stat r s = looked_at s (h.stat r.path s.world)

  -- The handle is given out only once the file has been looked at; if that fails the file is closed.
  abbrev pub register : Service h → h.File → Outcome FileInfo × h.World → Response × Service h
  register s f (failed e, w) = (failure e, record s { world = (h.file_close f w).1 })
  register s f (done fi, w) = (
    record success { mode = file_mode fi; size = fi.size; handle = s.next; mtime = fi.mtime },
    record { next = (s.next + 1) % 2 ^ 64; files = insert s.next f s.files; world = w },
  )

  abbrev pub opened : Service h → Outcome h.File × h.World → Response × Service h
  opened s (failed e, w) = (failure e, record s { world = w })
  opened s (done f, w) = register s f (h.file_stat f w)

  unfoldable pub open_with_mode : Request → ℕ → ℕ → Service h → Response × Service h
  open_with_mode r flags perm s = opened s (h.open_file r.path flags perm s.world)

  unfoldable pub serve_open : Request → Service h → Response × Service h
  unfolding open_with_mode
  serve_open r s = open_with_mode r r.flags 0o644 s

  unfoldable pub serve_create : Request → Service h → Response × Service h
  unfolding open_with_mode
  serve_create r s = open_with_mode r (bit_or r.flags h.o_create) (perm_bits r.mode) s

  abbrev pub written : Service h → Outcome ℕ × h.World → Response × Service h
  written s (failed e, w) = (failure e, record s { world = w })
  written s (done n, w) = (record success { size = pos n }, record s { world = w })

  abbrev pub pwrite_file : Request → Service h → Option h.File → Response × Service h
  pwrite_file r s none = (errno_response (neg ebadf), s)
  pwrite_file r s (some f) = written s (h.write_at f r.body r.off s.world)

  unfoldable pub serve_pwrite : Request → Service h → Response × Service h
  serve_pwrite r s = pwrite_file r s (lookup r.handle s.files)

  unfoldable pub serve_unlink : Request → Service h → Response × Service h
  serve_unlink r s =
      report s
        (if has_bit r.flags unlink_rmdir then h.rmdir r.path s.world else h.unlink r.path s.world)

  unfoldable pub serve_mkdir : Request → Service h → Response × Service h
  serve_mkdir r s = report s (h.mkdir r.path (perm_bits r.mode) s.world)

  unfoldable pub serve_rename : Request → Service h → Response × Service h
  serve_rename r s = report s (h.rename r.path r.path2 s.world)

  abbrev pub changed :
      Service h
      → (Service h → Response × Service h)
      → Outcome (Unit {0}) × h.World
      → Response × Service h
  changed s rest (failed e, w) = (failure e, record s { world = w })
  changed s rest (done _, w) = rest (record s { world = w })

  -- One of the changes of `setattr`: made only if it is asked for, and the rest only if it succeeds.
  abbrev pub change :
      Bool
      → (h.World → Outcome (Unit {0}) × h.World)
      → (Service h → Response × Service h)
      → Service h
      → Response × Service h
  change false call rest s = rest s
  change true call rest s = changed s rest (call s.world)

  abbrev pub change_times : Request → Service h → Response × Service h
  change_times r =
      change (has_bit r.mask (bit_or set_atime set_mtime)) (set_stamps h r) (λ s. (success, s))

  abbrev pub change_size : Request → Service h → Response × Service h
  change_size r = change (has_bit r.mask set_size) (h.truncate r.path r.size) (change_times r)

  unfoldable pub serve_setattr : Request → Service h → Response × Service h
  serve_setattr r =
      change (has_bit r.mask set_mode) (h.chmod r.path (perm_bits r.mode)) (change_size r)

  -- An end of file beside the bytes is no failure.
  abbrev pub read_result : Service h → (Bytes × Option GoError) × h.World → Response × Service h
  read_result s ((b, none), w) = (record success { body = b }, record s { world = w })
  read_result s ((b, some e), w) =
      (if e.is_eof then record success { body = b } else failure e, record s { world = w })

  abbrev pub pread_file : Request → Service h → Option h.File → Response × Service h
  pread_file r s none = (errno_response (neg ebadf), s)
  pread_file r s (some f) = read_result s (h.read_at f r.len r.off s.world)

  unfoldable pub serve_pread : Request → Service h → Response × Service h
  serve_pread r s = pread_file r s (lookup r.handle s.files)

  unfoldable pub serve_write_file : Request → Service h → Response × Service h
  serve_write_file r s = report s (h.write_file r.path r.body 0o644 s.world)

  -- The handle is gone whether or not the file closes.
  abbrev pub close_file : Service h → Option h.File → Response × Service h
  close_file s none = (errno_response (neg ebadf), s)
  close_file s (some f) = report s (h.file_close f s.world)

  unfoldable pub serve_close : Request → Service h → Response × Service h
  serve_close r s =
      close_file (record s { files = delete r.handle s.files }) (lookup r.handle s.files)

  abbrev pub listed : Service h → Outcome (List DirEntry) × h.World → Response × Service h
  listed s (failed e, w) = (failure e, record s { world = w })
  listed s (done es, w) = (
    record success { names = map (λ e. e.name) es; types = map dirent_type es },
    record s { world = w },
  )

  unfoldable pub serve_readdir : Request → Service h → Response × Service h
  serve_readdir r s = listed s (h.read_dir r.path s.world)

  abbrev pub dispatch : Op → Request → Service h → Response × Service h
  dispatch op_stat = serve_stat
  dispatch op_open = serve_open
  dispatch op_pread = serve_pread
  dispatch op_write_file = serve_write_file
  dispatch op_close = serve_close
  dispatch op_readdir = serve_readdir
  dispatch op_pwrite = serve_pwrite
  dispatch op_create = serve_create
  dispatch op_unlink = serve_unlink
  dispatch op_mkdir = serve_mkdir
  dispatch op_rename = serve_rename
  dispatch op_setattr = serve_setattr
  dispatch op_server_info = λ r s. (record success { os = h.goos; arch = h.goarch }, s)
  dispatch (op_other n) = λ r s. (errno_response (neg einval), s)

  -- `FSService.Handle`.
  unfoldable pub serve : Request → Service h → Response × Service h
  serve r = dispatch r.op r

  -- `CloseAll`.
  unfoldable pub close_all : Service h → Service h
  unfolding close_files
  close_all s = record s { files = []; world = close_files h s.files s.world }
