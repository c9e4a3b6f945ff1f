-- ===== src/Cli/Serve/Relays.antt =====
-- What the code of `rca serve` is good for.
use remote_adapter.Prelude.{
  ◌≡◌, ◌∙◌, ◌<◌, ◌^◌, refl, ap, sym, subst, Bool, true, false, not, ◌||◌, Option, none, some, List,
  [], ◌∷◌, ◌++◌, Bytes, codes, All, length, trim_space, either_keeps, if◌then◌else◌,
}
use remote_adapter.Prelude.FilePath.{is_empty}
use remote_adapter.Pairing.Uvarint.{IsByte}
use remote_adapter.Pairing.Code.{
  CodeError, Peers, AddrInfo, Decoded, good, bad, encode_code, decode_code,
}
use remote_adapter.Pairing.Code.RoundTrip.{IsStable}
use remote_adapter.Pairing.Printed.{
  Multiaddrs, is_reserved, not_loopback, or_all, relayed, relayed_from, reserved_peer,
  append_circuit_addrs, printed_code,
}
use remote_adapter.Pairing.Printed.Reach.{Reached, printed_code-Reached}
use remote_adapter.Cli.Embedded.{extract_embedded_native}
use remote_adapter.Transport.Libp2p.{listen_unix}
use remote_adapter.Cli.Serve.{
  ServeFlags, Libp2pHost, ServeHost, ServeEnding, not_served, had_served, split_csv, or_else_env,
  peer_from, relay_peer, reserved_one, reserve_relays, new_host, code_of, serving, over_libp2p,
  after_flags, cmd_serve,
}

-- What libp2p does with peer ids and addresses.
pub record IsLibp2p (p : Peers) (m : Multiaddrs p) : Type 0 where
  pub id_back : (i : p.PeerId) → p.id_from_bytes (p.id_bytes i) ≡ some i
  pub id_short : (i : p.PeerId) → length (p.id_bytes i) < 2 ^ 64
  pub id_bytes : (i : p.PeerId) → All IsByte (p.id_bytes i)
  pub id_same : (i : p.PeerId) → m.same_id i i ≡ true
  pub stable : (a : p.Addr) → IsStable p a

good_if :
    (b : Bool) (x : Bytes) (e : CodeError)
    → b ≡ true
    → (code : Bytes) × (◌≡◌ {A = Decoded Bytes} (if b then good x else bad e) (good code))
good_if true x e v = (x, refl)
good_if false x e v = cc

encode_code-exists :
    (p : Peers) (info : AddrInfo p)
    → p.validate info.id ≡ true
    → (code : Bytes) × (encode_code p info ≡ good code)
unfolding encode_code
encode_code-exists p info v = good_if (p.validate info.id) _ _ v

module _ {p : Peers} (m : Multiaddrs p) (h : ServeHost p) where
  reserved_one-keeps :
      (id : p.PeerId) (o : Option p.PeerId) (rest : List p.PeerId)
      → is_reserved m id rest ≡ true
      → is_reserved m id (reserved_one m h o rest) ≡ true
  unfolding is_reserved
  reserved_one-keeps id none rest e = e
  reserved_one-keeps id (some i) rest e =
      either_keeps (λ l. is_reserved m id l ≡ true) (h.reserves i) (rw e (or_true (m.same_id id i)))
        e
    where
      or_true : (b : Bool) → (b || true) ≡ true
      or_true true = refl
      or_true false = refl

  reserve_relays-is_reserved :
      (id : p.PeerId) (before after : List Bytes) (r : Bytes)
      → m.same_id id id ≡ true
      → relay_peer m h r ≡ some id
      → h.reserves id ≡ true
      → is_reserved m id (reserve_relays m h (before ++ (r ∷ after))) ≡ true
  unfolding reserve_relays is_reserved
  reserve_relays-is_reserved id [] after r same e ok =
      subst (λ o. is_reserved m id (reserved_one m h o (reserve_relays m h after)) ≡ true) (sym e)
        (subst
          (λ b.
            is_reserved m id (if b then id ∷ reserve_relays m h after else reserve_relays m h after)
            ≡ true)
          (sym ok) (ap (λ b. b || is_reserved m id (reserve_relays m h after)) same))
  reserve_relays-is_reserved id (b ∷ before) after r same e ok =
      reserved_one-keeps id (relay_peer m h b) _
        (reserve_relays-is_reserved id before after r same e ok)

  is_reserved-some :
      (id : p.PeerId) (ids : List p.PeerId) → is_reserved m id ids ≡ true → is_empty ids ≡ false
  unfolding is_reserved
  is_reserved-some id [] e = cc
  is_reserved-some id (i ∷ ids) e = refl

  relayed-reserved :
      (r : Bytes) (relay circuit : p.Addr) (id : p.PeerId) (ids : List p.PeerId)
      → is_empty (trim_space r) ≡ false
      → m.parse (trim_space r) ≡ some relay
      → m.peer_of relay ≡ some id
      → is_reserved m id ids ≡ true
      → relayed m circuit ids r ≡ some (m.encapsulate relay circuit)
  unfolding relayed
  relayed-reserved r relay circuit id ids ne e i k =
      ap (λ b. if b then none else relayed_from m circuit ids (m.parse (trim_space r))) ne
      ∙ ap (relayed_from m circuit ids) e
      ∙ ap (λ o. if reserved_peer m ids o then some (m.encapsulate relay circuit) else none) i
      ∙ ap (λ b. if b then some (m.encapsulate relay circuit) else none) k

  relay_peer-known :
      (r : Bytes) (relay : p.Addr) (id : p.PeerId)
      → is_empty (trim_space r) ≡ false
      → m.parse (trim_space r) ≡ some relay
      → m.peer_of relay ≡ some id
      → relay_peer m h r ≡ some id
  relay_peer-known r relay id ne e i =
      ap (λ b. if b then none else peer_from m h (m.parse (trim_space r))) ne
      ∙ ap (peer_from m h) e
      ∙ i

-- `rca serve` over libp2p prints a code before it serves; and who decodes it gets the peer id of the host
-- and, among the addresses, the way through each relay of --relays that is a peer's address and accepted
-- a reservation. It holds where the id of the host is valid, libp2p knows circuit addresses and reads
-- ids and addresses back from their bytes, and there are fewer than 2^64 addresses.
pub cmd_serve-Reached :
    (p : Peers) (m : Multiaddrs p) (h : ServeHost p) (args before after : List Bytes)
    (f : ServeFlags) (n : Libp2pHost p) (r : Bytes) (relay circuit : p.Addr) (id : p.PeerId)
    → h.flags args ≡ some f
    → is_empty f.sock ≡ true
    → f.stdio ≡ false
    → new_host m h
        (record f { announce = or_else_env f.announce (h.getenv (codes "RCA_SERVE_ANNOUNCE")) })
      ≡ some n
    → split_csv f.relays ≡ before ++ (r ∷ after)
    → is_empty (trim_space r) ≡ false
    → m.parse (trim_space r) ≡ some relay
    → m.peer_of relay ≡ some id
    → h.reserves id ≡ true
    → m.parse (codes "/p2p-circuit") ≡ some circuit
    → p.validate n.id ≡ true
    → IsLibp2p p m
    → length (
        append_circuit_addrs m
          (or_all m (not_loopback m n.addrs) n.addrs)
          (before ++ (r ∷ after))
          (reserve_relays m h (before ++ (r ∷ after))))
      < 2 ^ 64
    → (code : Bytes) × (info : AddrInfo p) × (cmd_serve m h args
        ≡ had_served
            (some (good code))
            ((extract_embedded_native h.cache (codes "rg")).path)
            (if h.serves then 0 else 1))
      × (decode_code p code ≡ good info)
      × (info.id ≡ n.id)
      × Reached m (m.encapsulate relay circuit) info.addrs
unfolding cmd_serve printed_code
cmd_serve-Reached p m h args before after f n r relay circuit id flags sock stdio host relays ne
      parsed peer ok circ valid lib few =
    let (info, back, same, reached) =
      printed_code-Reached p m n.id (m.encapsulate relay circuit) circuit n.addrs before after r all
        code (is_reserved-some m h id all kept) circ
        (relayed-reserved m h r relay circuit id all ne parsed peer kept) made (lib.id_back n.id)
        (lib.id_short n.id) (lib.id_bytes n.id) lib.stable few in
    (
      code,
      info,
      ap (after_flags m h) flags
          ∙ ap
              (λ b.
                if not b
                then (if listen_unix (h.remove f.sock) (h.listens f.sock)
                    then serving m h none
                    else not_served 1)
                else unless_sock)
              sock
          ∙ ap
              (λ b.
                if b
                then (if h.listen_stdio then serving m h none else not_served 1)
                else over_libp2p m h g (new_host m h g))
              stdio
          ∙ ap (over_libp2p m h g) host
          ∙ ap (λ l. serving m h (some (code_of m h n l))) relays
          ∙ ap (λ c. serving m h (some c)) made,
      back,
      same,
      reached,
    )
  where
    all : List p.PeerId
    all = reserve_relays m h (before ++ (r ∷ after))

    kept : is_reserved m id all ≡ true
    kept =
        reserve_relays-is_reserved m h id before after r (lib.id_same id)
          (relay_peer-known m h r relay id ne parsed peer) ok

    g : ServeFlags
    g = record f { announce = or_else_env f.announce (h.getenv (codes "RCA_SERVE_ANNOUNCE")) }

    unless_sock : ServeEnding
    unless_sock =
        if f.stdio
        then (if h.listen_stdio then serving m h none else not_served 1)
        else over_libp2p m h g (new_host m h g)

    out : (code : Bytes) × (printed_code m n.id n.addrs (before ++ (r ∷ after)) all ≡ good code)
    out = encode_code-exists p _ valid

    code : Bytes
    code = out.0

    made : printed_code m n.id n.addrs (before ++ (r ∷ after)) all ≡ good code
    made = out.1
