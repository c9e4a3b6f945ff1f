-- ===== src/Tests/Serves.antt =====
-- A run of `rca serve` behind one relay.
use remote_adapter.Prelude.{
  ℕ, ◌≡◌, refl, true, false, none, some, Option, [], ◌∷◌, Bytes, codes, arith, equal, trim_space,
  ◌==◌, if◌then◌else◌,
}
use remote_adapter.Pairing.Code.{Peers, AddrInfo, good, decode_code}
use remote_adapter.Pairing.Printed.{Multiaddrs, append_circuit_addrs, not_loopback, has, relayed}
use remote_adapter.Pairing.Printed.Reach.{Reached}
use remote_adapter.Cli.Embedded.{extract_embedded_native}
use remote_adapter.Transport.Libp2p.{not_there, new_libp2p_host}
use remote_adapter.Cli.Serve.{
  ServeFlags, Libp2pHost, ServeHost, had_served, split_csv, reserve_relays, cmd_serve,
}
use remote_adapter.Cli.Serve.Relays.{IsLibp2p, cmd_serve-Reached}
use remote_adapter.Tests.Launches.{cache}

-- One executor, at its own address, at a relay's, and at the one by way of the relay.
data Place : Type 0 where
  direct at_relay circuit by_relay : Place

abbrev place_byte : Place → ℕ
place_byte direct = 1
place_byte at_relay = 2
place_byte circuit = 3
place_byte by_relay = 4

abbrev place_of : Bytes → Option Place
place_of [] = none
place_of (b ∷ s) =
    if b == 1
    then some direct
    else if b == 2
    then some at_relay
    else if b == 3
    then some circuit
    else some by_relay

abbrev peers : Peers
peers = record {
  PeerId = Unit {0};
  Addr = Place;
  id_bytes = λ i. 9 ∷ [];
  validate = λ i. true;
  id_from_bytes = λ b. some tt;
  addr_bytes = λ a. place_byte a ∷ [];
  addr_from_bytes = place_of;
}

abbrev places : Multiaddrs peers
places = record {
  parse = λ s. some (if equal s (codes "/p2p-circuit") then circuit else at_relay);
  text = λ a. place_byte a ∷ [];
  encapsulate = λ a c. by_relay;
  is_loopback = λ a. false;
  peer_of = λ a. some tt;
  same_id = λ i j. true;
}

places-IsLibp2p : IsLibp2p peers places
places-IsLibp2p = record {
  id_back = λ i. refl;
  id_short = λ i. omega arith;
  id_bytes = λ i. (omega arith, tt);
  id_same = λ i. refl;
  stable = elim [
    | direct ↦ record { back = refl; short = omega arith; bytes = (omega arith, tt) }
    | at_relay ↦ record { back = refl; short = omega arith; bytes = (omega arith, tt) }
    | circuit ↦ record { back = refl; short = omega arith; bytes = (omega arith, tt) }
    | by_relay ↦ record { back = refl; short = omega arith; bytes = (omega arith, tt) }
  ];
}

abbrev flags : ServeFlags
flags = record {
  sock = [];
  stdio = false;
  listen = codes "/ip4/0.0.0.0/tcp/0";
  hole_punch = true;
  relays = codes " /r , ";
  announce = [];
}

abbrev server : Libp2pHost peers
server = record { id = tt; addrs = direct ∷ [] }

abbrev serve_host : ServeHost peers
serve_host = record {
  flags = λ args. some flags;
  getenv = λ v. [];
  remove = λ s. not_there;
  listens = λ s. true;
  listen_stdio = true;
  Key = ℕ;
  generate = some 1;
  new = λ o. some server;
  reserves = λ i. true;
  cache = cache;
  serves = true;
}

relays_run : split_csv flags.relays ≡ codes "/r" ∷ []
unfolding split_csv trim_space
relays_run = refl

cmd_serve-Reached_example :
    (code : Bytes) × (info : AddrInfo peers) × (cmd_serve places serve_host []
      ≡ had_served (some (good code)) ((extract_embedded_native cache (codes "rg")).path) 0)
    × (decode_code peers code ≡ good info)
    × (info.id ≡ tt)
    × Reached places by_relay info.addrs
unfolding append_circuit_addrs not_loopback relayed has reserve_relays trim_space equal
    remote_adapter.Pairing.Printed.add_relays remote_adapter.Pairing.Printed.is_reserved
    new_libp2p_host
cmd_serve-Reached_example =
    cmd_serve-Reached peers places serve_host [] [] [] flags server (codes "/r") at_relay circuit tt
      refl refl refl refl relays_run refl refl refl refl refl refl places-IsLibp2p (omega arith)
