-- ===== src/Cli/Serve.antt =====
-- cmd/rca/serve.go: `rca serve`, with `ReserveRelays` of internal/transport/relay_client.go and
-- `parseAddrInfos` of internal/transport/libp2p.go.
pub mod Relays
use remote_adapter.Prelude.{
  ℕ, Bool, true, false, not, Option, none, some, List, [], ◌∷◌, ◌++◌, Bytes, codes, trim_space,
  if◌then◌else◌,
}
use remote_adapter.Prelude.FilePath.{is_empty, split, split_from}
use remote_adapter.Pairing.Code.{Peers, Decoded}
use remote_adapter.Pairing.Printed.{Multiaddrs, printed_code}
use remote_adapter.Transport.Libp2p.{HostConfig, HostOption, new_libp2p_host, Removal, listen_unix}
use remote_adapter.Cli.Embedded.{Cache, extract_embedded_native}

abbrev pub trimmed : List Bytes → List Bytes
trimmed [] = []
trimmed (s ∷ ss) =
    let rest = trimmed ss in if is_empty (trim_space s) then rest else trim_space s ∷ rest

-- `splitCSV`.
unfoldable pub split_csv : Bytes → List Bytes
unfolding split_from
split_csv s = if is_empty (trim_space s) then [] else trimmed (split b',' s)

pub record ServeFlags : Type 0 where
  pub sock : Bytes
  pub stdio : Bool
  pub listen : Bytes
  pub hole_punch : Bool
  pub relays : Bytes
  pub announce : Bytes

-- A libp2p host: its peer id and its addresses.
pub record Libp2pHost (p : Peers) : Type 0 where
  pub id : p.PeerId
  pub addrs : List p.Addr

-- What `cmdServe` asks of package flag, of the host and of libp2p; `false` and `none` are errors.
-- `reserves` is `reserveOnce`, and `serves` is the executor's accept loop, which ends with an error or not.
pub record ServeHost (p : Peers) : Type 1 where
  pub Key : Type 0
  pub flags : List Bytes → Option ServeFlags
  pub getenv : Bytes → Bytes
  pub remove : Bytes → Removal
  pub listens : Bytes → Bool
  pub listen_stdio : Bool
  pub generate : Option Key
  pub new : List (HostOption Key p.Addr) → Option (Libp2pHost p)
  pub reserves : p.PeerId → Bool
  pub cache : Cache
  pub serves : Bool

-- How `cmdServe` ends: with a status before it serves; or having served, with the code that it printed
-- before, if there was one, with the path of the bundled ripgrep, and with a status.
pub data ServeEnding : Type 0 where
  not_served : ℕ → ServeEnding
  had_served : Option (Decoded Bytes) → Option Bytes → ℕ → ServeEnding

abbrev pub or_else_env : Bytes → Bytes → Bytes
or_else_env [] v = v
or_else_env (c ∷ s) v = c ∷ s

module _ {p : Peers} (m : Multiaddrs p) (h : ServeHost p) where
  abbrev pub peer_from : Option p.Addr → Option p.PeerId
  peer_from none = none
  peer_from (some a) = m.peer_of a

  -- One round of `parseAddrInfos`.
  abbrev pub relay_peer : Bytes → Option p.PeerId
  relay_peer r = if is_empty (trim_space r) then none else peer_from (m.parse (trim_space r))

  abbrev pub reserved_one : Option p.PeerId → List p.PeerId → List p.PeerId
  reserved_one none rest = rest
  reserved_one (some id) rest = if h.reserves id then id ∷ rest else rest

  -- `ReserveRelays`: the relays on which the first reservation succeeded.
  unfoldable pub reserve_relays : List Bytes → List p.PeerId
  reserve_relays [] = []
  reserve_relays (r ∷ relays) = reserved_one (relay_peer r) (reserve_relays relays)

  abbrev pub config_of : ServeFlags → HostConfig
  config_of f = record {
    listen_addrs = split_csv f.listen;
    enable_hole_punching = f.hole_punch;
    force_reachability_private = not (is_empty (split_csv f.relays));
    announce_addrs = split_csv f.announce;
  }

  abbrev pub code_of : Libp2pHost p → List Bytes → Decoded Bytes
  code_of n relays = printed_code m n.id n.addrs relays (reserve_relays relays)

  -- From the listener on.
  abbrev pub serving : Option (Decoded Bytes) → ServeEnding
  serving code =
      had_served code ((extract_embedded_native h.cache (codes "rg")).path)
        (if h.serves then 0 else 1)

  abbrev pub over_libp2p : ServeFlags → Option (Libp2pHost p) → ServeEnding
  over_libp2p f none = not_served 1
  over_libp2p f (some n) = serving (some (code_of n (split_csv f.relays)))

  -- A host with a fresh key.
  abbrev pub new_host : ServeFlags → Option (Libp2pHost p)
  new_host f = new_libp2p_host m.parse h.new h.generate none (config_of f)

  abbrev pub serve_with : ServeFlags → ServeEnding
  serve_with f =
      if not (is_empty f.sock)
      then (if listen_unix (h.remove f.sock) (h.listens f.sock) then serving none else not_served 1)
      else if f.stdio
      then (if h.listen_stdio then serving none else not_served 1)
      else over_libp2p f (new_host f)

  abbrev pub after_flags : Option ServeFlags → ServeEnding
  after_flags none = not_served 2
  after_flags (some f) =
      serve_with
        (record f { announce = or_else_env f.announce (h.getenv (codes "RCA_SERVE_ANNOUNCE")) })

  -- `cmdServe`.
  unfoldable pub cmd_serve : List Bytes → ServeEnding
  unfolding split_csv reserve_relays
  cmd_serve args = after_flags (h.flags args)
