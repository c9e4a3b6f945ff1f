-- ===== src/Pairing/Printed.antt =====
-- cmd/rca/pairing.go: the addresses that go into the pairing code of `rca serve`.
pub mod Reach
use remote_adapter.Prelude.{
  Bool, true, false, not, ◌&&◌, ◌||◌, Option, none, some, List, [], ◌∷◌, ◌++◌, Bytes, codes, equal,
  map, trim_space, if◌then◌else◌,
}
use remote_adapter.Prelude.FilePath.{is_empty}
use remote_adapter.Pairing.Code.{Peers, AddrInfo, Decoded, encode_code}

-- What the code asks of go-multiaddr and of package peer: `NewMultiaddr`, `String`, `Encapsulate`,
-- `IsIPLoopback`, the peer id of `AddrInfoFromP2pAddr`, and the equality of peer ids.
pub record Multiaddrs (p : Peers) : Type 0 where
  pub parse : Bytes → Option p.Addr
  pub text : p.Addr → Bytes
  pub encapsulate : p.Addr → p.Addr → p.Addr
  pub is_loopback : p.Addr → Bool
  pub peer_of : p.Addr → Option p.PeerId
  pub same_id : p.PeerId → p.PeerId → Bool

unfoldable pub has : Bytes → List Bytes → Bool
has s [] = false
has s (t ∷ ts) = equal s t || has s ts

module _ {p : Peers} (m : Multiaddrs p) where
  unfoldable pub not_loopback : List p.Addr → List p.Addr
  not_loopback [] = []
  not_loopback (a ∷ addrs) = if m.is_loopback a then not_loopback addrs else a ∷ not_loopback addrs

  abbrev pub or_all : List p.Addr → List p.Addr → List p.Addr
  or_all [] addrs = addrs
  or_all (a ∷ kept) addrs = a ∷ kept

  unfoldable pub is_reserved : p.PeerId → List p.PeerId → Bool
  is_reserved id [] = false
  is_reserved id (r ∷ reserved) = m.same_id id r || is_reserved id reserved

  abbrev pub reserved_peer : List p.PeerId → Option p.PeerId → Bool
  reserved_peer reserved none = false
  reserved_peer reserved (some id) = is_reserved id reserved

  abbrev pub relayed_by : p.Addr → List p.PeerId → p.Addr → Option p.Addr
  relayed_by circuit reserved relay =
      if reserved_peer reserved (m.peer_of relay) then some (m.encapsulate relay circuit) else none

  abbrev pub relayed_from : p.Addr → List p.PeerId → Option p.Addr → Option p.Addr
  relayed_from circuit reserved none = none
  relayed_from circuit reserved (some relay) = relayed_by circuit reserved relay

  -- The address by way of a relay, where there is one and a reservation on it.
  unfoldable pub relayed : p.Addr → List p.PeerId → Bytes → Option p.Addr
  relayed circuit reserved r =
      if is_empty (trim_space r)
      then none
      else relayed_from circuit reserved (m.parse (trim_space r))

  -- One round of the loop over the relays, on the addresses and the variable `have`.
  abbrev pub add_new : Option p.Addr → List p.Addr × List Bytes → List p.Addr × List Bytes
  add_new none (addrs, have) = (addrs, have)
  add_new (some a) (addrs, have) =
      if has (m.text a) have then (addrs, have) else (addrs ++ (a ∷ []), m.text a ∷ have)

  unfoldable pub add_relays :
      p.Addr → List p.PeerId → List Bytes → List p.Addr × List Bytes → List p.Addr
  add_relays circuit reserved [] (addrs, have) = addrs
  add_relays circuit reserved (r ∷ relays) known =
      add_relays circuit reserved relays (add_new (relayed circuit reserved r) known)

  abbrev pub with_circuit : Option p.Addr → List p.Addr → List Bytes → List p.PeerId → List p.Addr
  with_circuit none addrs relays reserved = addrs
  with_circuit (some circuit) addrs relays reserved =
      add_relays circuit reserved relays (addrs, map m.text addrs)

  -- `appendCircuitAddrs`.
  unfoldable pub append_circuit_addrs : List p.Addr → List Bytes → List p.PeerId → List p.Addr
  append_circuit_addrs addrs relays reserved =
      if is_empty reserved
      then addrs
      else with_circuit (m.parse (codes "/p2p-circuit")) addrs relays reserved

  -- The code that `printPairingCode` prints, for a host with this id and these addresses.
  unfoldable pub printed_code : p.PeerId → List p.Addr → List Bytes → List p.PeerId → Decoded Bytes
  unfolding not_loopback
  printed_code id addrs relays reserved = encode_code p (record {
    id = id;
    addrs = append_circuit_addrs (or_all (not_loopback addrs) addrs) relays reserved;
  })
