-- ===== src/Tests/Relays.antt =====
-- Runs of the relay's commands and of the loop that keeps a reservation.
use remote_adapter.Prelude.{
  length, ◌+◌, ◌*◌, ◌<◌, ◌≡◌, refl, true, none, some, [], ◌∷◌, Bytes, codes, All, arith,
}
use remote_adapter.Pairing.StdBase64.{std_encode, std_digit}
use remote_adapter.Transport.Refresh.{
  BeginsAhead, minute, second, refused, granted, wait, refresh_loop, refresh_loop-in_time,
}
use remote_adapter.Cli.Relay.{RelayHost, cmd_relay}
use remote_adapter.Cli.Relay.Identity.{with_key, cmd_relay-again}
use remote_adapter.Cli.Fuse.{FuseHost, FuseFlags}

-- An hour's reservation: tried first after 55 minutes.
refresh_run :
    refresh_loop 0
      (60 * minute)
      (refused (10 * second) ∷ granted (1 * second) (120 * minute) ∷ refused 0 ∷ [])
    ≡ (55 * minute) ∷ (56 * minute + 10 * second) ∷ (115 * minute) ∷ []
unfolding refresh_loop wait
refresh_run = refl

refresh_loop-in_time_example :
    let begun = refresh_loop 0 (60 * minute) (refused (10 * second) ∷ refused (30 * second) ∷ []) in
    BeginsAhead (60 * minute) begun × All (λ at. at < 60 * minute) begun × (length begun ≡ 2)
refresh_loop-in_time_example =
    refresh_loop-in_time 0 (60 * minute) (10 * second ∷ 30 * second ∷ []) (omega arith)
      (omega arith) (omega arith, (omega arith, tt))

-- A key is its bytes.
abbrev relay_host : RelayHost
relay_host = record {
  Key = Bytes;
  Addr = Bytes;
  Node = Bytes;
  flags = λ announce args. some (record { listen = codes "/ip4"; announce = announce });
  getenv = λ v. [];
  generate = some (codes "key!");
  marshal = λ k. some k;
  unmarshal = λ b. some b;
  parse = λ b. some b;
  new = λ options. some (codes "node");
  relays = λ n. true;
}

encode_run : std_encode (codes "key!") ≡ codes "a2V5IQ=="
unfolding std_encode std_digit
encode_run = refl

cmd_relay-again_example :
    let again =
      cmd_relay (with_key relay_host (some (codes "other")) (std_encode (codes "key!"))) [] in
    ((cmd_relay relay_host []).printed ≡ some (std_encode (codes "key!")))
    × (again.printed ≡ none)
    × (again.node ≡ (cmd_relay relay_host []).node)
cmd_relay-again_example =
    cmd_relay-again relay_host [] (record { listen = codes "/ip4"; announce = [] })
      (some (codes "other")) (codes "key!") (codes "key!") refl refl refl refl
      (omega arith, (omega arith, (omega arith, (omega arith, tt)))) (λ e. cc e) refl

abbrev fuse_flags : FuseFlags
fuse_flags = record {
  mount = codes "/w";
  root = [];
  direct_mount = true;
  adapter_sock = codes "/s";
}

abbrev fuse_host : FuseHost
fuse_host = record {
  flags = λ args. some fuse_flags;
  getenv = λ v. [];
  mkdir_all = λ p. true;
  fs_mount = λ m. true;
}
