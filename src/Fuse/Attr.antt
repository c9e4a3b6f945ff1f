-- ===== src/Fuse/Attr.antt =====
-- internal/linuxfuse/fs_linux.go: attributes, inode numbers, error numbers and entry types.
use remote_adapter.Prelude.{
  ℕ, zero, suc, ◌+◌, ◌-◌, ◌*◌, ◌/◌, ◌%◌, ◌^◌, ◌<◌, ◌≡◌, refl, [], ◌∷◌, Bytes, leb, ◌==◌, ◌||◌,
  if◌then◌else◌, bit_xor, Bool, arith, Bool-cases, inl, inr,
}
use remote_adapter.Prelude.Int.{ℤ, pos, negsuc, to_word, neg}
use remote_adapter.Protocol.Types.{Response, dt_dir, dt_lnk, dt_reg}
use remote_adapter.Executor.Host.{DirEntry}
use remote_adapter.Executor.Fs.{dirent_type}

abbrev pub s_ifdir : ℕ
s_ifdir = 0o040000

abbrev pub s_ifreg : ℕ
s_ifreg = 0o100000

abbrev pub s_iflnk : ℕ
s_iflnk = 0o120000

-- The fields of a fuse.Attr that are filled; each stamp is its seconds and nanoseconds.
pub record Attr : Type 0 where
  pub mode : ℕ
  pub size : ℕ
  pub mtime : ℕ × ℕ
  pub atime : ℕ × ℕ
  pub ctime : ℕ × ℕ

abbrev pub stamp : ℕ → ℕ × ℕ
stamp t = (t / 1_000_000_000, t % 1_000_000_000)

abbrev pub stamped : Attr → ℕ → Attr
stamped a t = record a { mtime = stamp t; atime = stamp t; ctime = stamp t }

abbrev pub with_mtime : Attr → ℤ → Attr
with_mtime a (pos zero) = a
with_mtime a (pos (suc n)) = stamped a (suc n)
with_mtime a (negsuc n) = a

unfoldable pub fill_attr : Attr → Response → Attr
fill_attr a r = with_mtime (record a { mode = r.mode; size = to_word (2 ^ 64) r.size }) r.mtime

-- FNV-1a over 64 bits, as hash/fnv computes it.
unfoldable pub fnv1a : ℕ → Bytes → ℕ
fnv1a h [] = h
fnv1a h (c ∷ s) = fnv1a (bit_xor h c * 1_099_511_628_211 % 2 ^ 64) s

pub record StableAttr : Type 0 where
  pub mode : ℕ
  pub ino : ℕ
  pub gen : ℕ

abbrev pub reserved : ℕ → Bool
reserved ino = leb ino 1 || ino == 18_446_744_073_709_551_615

unfoldable pub stable_attr : Bytes → ℕ → StableAttr
unfolding fnv1a
stable_attr path mode =
    let ino = fnv1a 14_695_981_039_346_656_037 path in
    record { mode = mode; ino = if reserved ino then 2 else ino; gen = 1 }

-- `syscall.Errno(-resp.Err)`: the negation is of an int32, and an Errno has 64 bits.
unfoldable pub errno_of : ℤ → ℕ
errno_of (pos zero) = 0
errno_of (pos (suc n)) = 2 ^ 64 - suc n
errno_of (negsuc n) = if n == 2_147_483_647 then 2 ^ 64 - 2 ^ 31 else n + 1

unfoldable pub dirent_mode : ℕ → ℕ
dirent_mode t =
    if t == dt_dir
    then s_ifdir
    else if t == dt_lnk
    then s_iflnk
    else if t == dt_reg
    then s_ifreg
    else 0

fnv1a_lt : (h : ℕ) (s : Bytes) → h < 2 ^ 64 → fnv1a h s < 2 ^ 64
unfolding fnv1a
fnv1a_lt h [] b = b
fnv1a_lt h (c ∷ s) b = fnv1a_lt (bit_xor h c * 1_099_511_628_211 % 2 ^ 64) s (omega arith)

pick_lt :
    (ino : ℕ)
    → ino < 2 ^ 64
    → (1 < (if reserved ino then 2 else ino))
      × ((if reserved ino then 2 else ino) < 18_446_744_073_709_551_615)
pick_lt ino b = ground arith

-- The inode number of a path is never one of those that go-fuse reserves: 0, 1 and the highest.
pub stable_attr_ino :
    (path : Bytes) (mode : ℕ)
    → (1 < (stable_attr path mode).ino) × ((stable_attr path mode).ino < 18_446_744_073_709_551_615)
unfolding stable_attr
stable_attr_ino path mode =
    pick_lt (fnv1a 14_695_981_039_346_656_037 path)
      (fnv1a_lt 14_695_981_039_346_656_037 path (omega arith))

-- An error number below 2^31 that the executor sends as its negative comes out as it went in.
pub errno_of-neg : (n : ℕ) → n < 2 ^ 31 → errno_of (neg n) ≡ n
unfolding errno_of
errno_of-neg zero h = refl
errno_of-neg (suc n) h = ground arith

-- What the mount shows of an entry that the executor lists: its type, as the host gave it.
pub dirent_mode-dirent_type :
    (e : DirEntry)
    → dirent_mode (dirent_type e)
      ≡ (if e.dir then s_ifdir else if e.symlink then s_iflnk else if e.regular then s_ifreg else 0)
unfolding dirent_mode dirent_type
dirent_mode-dirent_type e = elim (Bool-cases e.dir) [
  | inl d ↦ rw d refl
  | inr nd ↦ elim (Bool-cases e.symlink) [
    | inl l ↦ rw (nd, l) refl
    | inr nl ↦ elim (Bool-cases e.regular) [
      | inl r ↦ rw (nd, nl, r) refl
      | inr nr ↦ rw (nd, nl, nr) refl
    ]
  ]
]
