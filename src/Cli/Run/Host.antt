-- ===== src/Cli/Run/Host.antt =====
-- cmd/rca/run.go: what `cmdRun` asks of its host, and how it leaves.
use remote_adapter.Prelude.{ℕ, Bool, true, false, Option, none, some, List, Bytes}
use remote_adapter.Prelude.Int.{ℤ, pos}
use remote_adapter.Adapter.Link.{Link}
use remote_adapter.Adapter.Launch.{Platform, Command, MacTools}
use remote_adapter.Subprocess.Child.{Waited}
use remote_adapter.Cli.Embedded.{Cache}

-- How the executor is reached: --via, a pairing code, a peer's multiaddr, or a unix socket.
pub data Transport : Type 0 where
  via code peer unix : Bytes → Transport

pub data Dialed (S : Type 0) : Type 0 where
  dialer : S → Dialed S
  no_dialer : ℕ → Dialed S

-- What `cmdRun` asks of the host and of the packages that it calls; `false` and `none` are errors.
-- `dial` makes the transport's dialer, with the status to leave with where that fails; `start` starts a
-- command and waits for it.
pub record RunHost (k : Link) : Type 0 where
  pub platform : Platform
  pub goos : Bytes
  pub default_sock : Bytes
  pub own_env : List Bytes
  pub getenv : Bytes → Bytes
  pub getwd : Option Bytes
  pub eval_symlinks : Bytes → Option Bytes
  pub look_path : Bytes → Option Bytes
  pub platform_binary : Bytes → Bool
  pub tools : MacTools
  pub present : Bytes → Bool
  pub executable : Option Bytes
  pub cache : Cache
  pub dial : Transport → Dialed k.State
  pub listen : Bytes → Bool
  pub start : Command → Option Waited

-- A step of `cmdRun` goes on or leaves with a status.
pub data Step {ℓ} (A : Type ℓ) : Type ℓ where
  next : A → Step A
  leave : ℤ → Step A

infixl 5 ◌>>=◌
abbrev pub ◌>>=◌ {ℓ κ} : {A : Type ℓ} {B : Type κ} → Step A → (A → Step B) → Step B
next a >>= f = f a
leave n >>= f = leave n

abbrev pub or_leave {ℓ} : {A : Type ℓ} → ℕ → Option A → Step A
or_leave n none = leave (pos n)
or_leave n (some a) = next a

abbrev pub check : Bool → Step (Unit {0})
check true = next tt
check false = leave (pos 1)
