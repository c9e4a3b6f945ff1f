-- ===== src/Executor/Host.antt =====
-- What internal/executor/fs.go asks of the operating system through packages os and syscall. The host
-- is a parameter: a state, and one function for each call. Nothing is assumed of them.
use remote_adapter.Prelude.{ℕ, Bool, Option, List, Bytes}
use remote_adapter.Prelude.Int.{ℤ}

-- What `toErrno` and `pread` ask of a Go error: the syscall.Errno inside it, if there is one, and the
-- answers of os.IsNotExist, os.IsPermission and errors.Is for io.EOF.
pub record GoError : Type 0 where
  pub errno : Option ℕ
  pub not_exist : Bool
  pub permission : Bool
  pub is_eof : Bool

pub data Outcome {ℓ} (A : Type ℓ) : Type ℓ where
  done : A → Outcome A
  failed : GoError → Outcome A

-- os.FileInfo: `perm` is Mode().Perm(), `mtime` the Unix nanoseconds of ModTime().
pub record FileInfo : Type 0 where
  pub perm : ℕ
  pub dir : Bool
  pub size : ℤ
  pub mtime : ℤ

-- os.DirEntry with its IsDir(), and whether Type() is a symbolic link or regular.
pub record DirEntry : Type 0 where
  pub name : Bytes
  pub dir : Bool
  pub symlink : Bool
  pub regular : Bool

pub record Host : Type 1 where
  pub World : Type 0
  pub File : Type 0
  pub o_create : ℕ
  pub goos : Bytes
  pub goarch : Bytes
  pub stat : Bytes → World → Outcome FileInfo × World
  pub open_file : Bytes → ℕ → ℕ → World → Outcome File × World
  pub file_stat : File → World → Outcome FileInfo × World
  pub file_close : File → World → Outcome (Unit {0}) × World
  -- The bytes read, and the error beside them.
  pub read_at : File → ℕ → ℤ → World → (Bytes × Option GoError) × World
  pub write_at : File → Bytes → ℤ → World → Outcome ℕ × World
  pub write_file : Bytes → Bytes → ℕ → World → Outcome (Unit {0}) × World
  pub read_dir : Bytes → World → Outcome (List DirEntry) × World
  pub unlink : Bytes → World → Outcome (Unit {0}) × World
  pub rmdir : Bytes → World → Outcome (Unit {0}) × World
  pub mkdir : Bytes → ℕ → World → Outcome (Unit {0}) × World
  pub rename : Bytes → Bytes → World → Outcome (Unit {0}) × World
  pub chmod : Bytes → ℕ → World → Outcome (Unit {0}) × World
  pub truncate : Bytes → ℤ → World → Outcome (Unit {0}) × World
  -- A zero time, here `none`, leaves that stamp untouched.
  pub chtimes : Bytes → Option ℤ → Option ℤ → World → Outcome (Unit {0}) × World
