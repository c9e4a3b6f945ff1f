-- ===== src/Cli/Relay.antt =====
-- cmd/rca/relay.go: `rca relay`.
pub mod Identity
use remote_adapter.Prelude.{
  ℕ, Bool, true, false, Option, none, some, List, [], ◌∷◌, Bytes, codes, if◌then◌else◌,
}
use remote_adapter.Prelude.FilePath.{is_empty}
use remote_adapter.Pairing.StdBase64.{std_encode, std_decode}
use remote_adapter.Transport.Libp2p.{HostConfig, HostOption, new_libp2p_host}
use remote_adapter.Cli.Serve.{split_csv}

pub record RelayFlags : Type 0 where
  pub listen : Bytes
  pub announce : Bytes

-- What `cmdRelay` asks of package flag, given the default of -announce, of the environment, and of
-- libp2p: its keys, its multiaddrs, libp2p.New and the relay service; `false` and `none` are errors.
pub record RelayHost : Type 1 where
  pub Key : Type 0
  pub Addr : Type 0
  pub Node : Type 0
  pub flags : Bytes → List Bytes → Option RelayFlags
  pub getenv : Bytes → Bytes
  pub generate : Option Key
  pub marshal : Key → Option Bytes
  pub unmarshal : Bytes → Option Key
  pub parse : Bytes → Option Addr
  pub new : List (HostOption Key Addr) → Option Node
  pub relays : Node → Bool

-- How `cmdRelay` ends: the value of RCA_RELAY_KEY that it printed, if it made a key; the host that relayed,
-- if one did; and the status.
pub record RelayEnding (Node : Type 0) : Type 0 where
  pub printed : Option Bytes
  pub node : Option Node
  pub status : ℕ

abbrev pub key_name : Bytes
key_name = codes "RCA_RELAY_KEY"

abbrev pub config : RelayFlags → HostConfig
config f = record {
  listen_addrs = split_csv f.listen;
  enable_hole_punching = false;
  force_reachability_private = false;
  announce_addrs = split_csv f.announce;
}

module _ (h : RelayHost) where
  -- A key, and what is printed of it.
  abbrev pub kept : Option h.Key → Option (h.Key × Option Bytes)
  kept none = none
  kept (some key) = some (key, none)

  abbrev pub unmarshalled : Option Bytes → Option (h.Key × Option Bytes)
  unmarshalled none = none
  unmarshalled (some raw) = kept (h.unmarshal raw)

  abbrev pub marshalled : h.Key → Option Bytes → Option (h.Key × Option Bytes)
  marshalled key none = none
  marshalled key (some raw) = some (key, some (std_encode raw))

  abbrev pub generated : Option h.Key → Option (h.Key × Option Bytes)
  generated none = none
  generated (some key) = marshalled key (h.marshal key)

  abbrev pub identity_of : Bytes → Option (h.Key × Option Bytes)
  identity_of enc = if is_empty enc then generated h.generate else unmarshalled (std_decode enc)

  -- `relayIdentity`.
  unfoldable pub relay_identity : Option (h.Key × Option Bytes)
  relay_identity = identity_of (h.getenv key_name)

  abbrev pub failing : Option Bytes → RelayEnding h.Node
  failing printed = record { printed = printed; node = none; status = 1 }

  abbrev pub relaying : Option Bytes → Option h.Node → RelayEnding h.Node
  relaying printed none = failing printed
  relaying printed (some n) =
      if h.relays n
      then record { printed = printed; node = some n; status = 0 }
      else failing printed

  abbrev pub with_identity : RelayFlags → Option (h.Key × Option Bytes) → RelayEnding h.Node
  with_identity f none = failing none
  with_identity f (some (key, printed)) =
      relaying printed (new_libp2p_host h.parse h.new h.generate (some key) (config f))

  abbrev pub relay_with : Option (h.Key × Option Bytes) → Option RelayFlags → RelayEnding h.Node
  relay_with i none = record { printed = none; node = none; status = 2 }
  relay_with i (some f) = with_identity f i

  -- `cmdRelay`, up to the signal that ends it.
  unfoldable pub cmd_relay : List Bytes → RelayEnding h.Node
  unfolding relay_identity
  cmd_relay args = relay_with relay_identity (h.flags (h.getenv (codes "RCA_RELAY_ANNOUNCE")) args)
