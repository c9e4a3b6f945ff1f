-- ===== src/Transport/Libp2p.antt =====
-- internal/transport/libp2p.go: how a libp2p host is set up, and how a stream to a peer is opened.
-- internal/transport/unixsocket.go: how a Unix socket is listened on.
use remote_adapter.Prelude.{
  Bool, true, false, Option, none, some, List, [], ◌∷◌, ◌++◌, Bytes, trim_space, join, codes, map,
  if◌then◌else◌,
}
use remote_adapter.Prelude.FilePath.{is_empty}

-- `PrivKey`, the identity, is passed beside it.
pub record HostConfig : Type 0 where
  pub listen_addrs : List Bytes
  pub enable_hole_punching : Bool
  pub force_reachability_private : Bool
  pub announce_addrs : List Bytes

-- The options of libp2p.New that are used.
pub data HostOption (K A : Type 0) : Type 0 where
  identity : K → HostOption K A
  listen_addr_strings : List Bytes → HostOption K A
  hole_punching : HostOption K A
  reachability_private : HostOption K A
  -- The factory that puts the announced addresses before the host's own.
  addrs_factory : List A → HostOption K A

abbrev pub has_any {ℓ} : {A : Type ℓ} → List A → Bool
has_any [] = false
has_any (x ∷ xs) = true

abbrev pub option_if {ℓ} : {A : Type ℓ} → Bool → A → List A
option_if true o = o ∷ []
option_if false o = []

abbrev pub parsed_onto {ℓ} : {A : Type ℓ} → Option A → List A → List A
parsed_onto none rest = rest
parsed_onto (some a) rest = a ∷ rest

-- `parseMultiaddrs`, with multiaddr.NewMultiaddr.
unfoldable pub parse_multiaddrs : {A : Type 0} → (Bytes → Option A) → List Bytes → List A
parse_multiaddrs parse [] = []
parse_multiaddrs parse (a ∷ addrs) =
    let rest = parse_multiaddrs parse addrs in
    if is_empty (trim_space a) then rest else parsed_onto (parse (trim_space a)) rest

module _ {K A : Type 0} (parse : Bytes → Option A) where
  -- The options that `NewLibp2pHost` collects.
  unfoldable pub host_options : K → HostConfig → List (HostOption K A)
  unfolding parse_multiaddrs
  host_options key c =
      let announce = parse_multiaddrs parse c.announce_addrs in
      (identity key ∷ [])
      ++ (option_if (has_any c.listen_addrs) (listen_addr_strings c.listen_addrs)
          ++ (option_if c.enable_hole_punching hole_punching
              ++ (option_if c.force_reachability_private reachability_private
                  ++ option_if (has_any announce) (addrs_factory announce))))

  abbrev pub built_with :
      {H : Type 0} → (List (HostOption K A) → Option H) → HostConfig → Option K → Option H
  built_with new c none = none
  built_with new c (some key) = new (host_options key c)

  abbrev pub or_generated : Option K → Option K → Option K
  or_generated none generated = generated
  or_generated (some key) generated = some key

  -- `NewLibp2pHost`, with the key that crypto.GenerateEd25519Key would give, and libp2p.New.
  unfoldable pub new_libp2p_host :
      {H : Type 0}
      → (List (HostOption K A) → Option H)
      → Option K
      → Option K
      → HostConfig
      → Option H
  unfolding host_options
  new_libp2p_host new generated key c = built_with new c (or_generated key generated)

-- What a host with these options advertises, its own addresses given.
unfoldable pub advertised : {K A : Type 0} → List (HostOption K A) → List A → List A
advertised [] own = own
advertised (addrs_factory announce ∷ options) own = announce ++ advertised options own
advertised (_ ∷ options) own = advertised options own

-- The two calls of the host that `Libp2pDialer.Dial` makes.
pub record Network : Type 1 where
  pub State : Type 0
  pub connect : State → Bool × State
  pub new_stream : State → Bool × State

abbrev pub on_connected : (n : Network) → Bool × n.State → Bool × n.State
on_connected n (false, s) = (false, s)
on_connected n (true, s) = n.new_stream s

-- `Libp2pDialer.Dial`, to a peer with or without addresses.
unfoldable pub dial : (n : Network) → {A : Type 0} → List A → n.State → Bool × n.State
dial n addrs s = if has_any addrs then on_connected n (n.connect s) else n.new_stream s

-- What os.Remove answers.
pub data Removal : Type 0 where
  removed not_there in_the_way : Removal

-- `ListenUnix`: whether there is a listener, with what net.Listen answers.
unfoldable pub listen_unix : Removal → Bool → Bool
listen_unix in_the_way listens = false
listen_unix _ listens = listens

abbrev pub then_peer : {A I : Type 0} → (A → Option I) → Option A → Option I
then_peer peer_of none = none
then_peer peer_of (some a) = peer_of a

-- `DialLibp2pPeer`: the peer of the dialer, with multiaddr.NewMultiaddr and peer.AddrInfoFromP2pAddr.
unfoldable pub dial_libp2p_peer :
    {A I : Type 0} → (Bytes → Option A) → (A → Option I) → Bytes → Option I
dial_libp2p_peer parse peer_of text = then_peer peer_of (parse (trim_space text))

-- `Libp2pListener.Addr`, of the texts of the host's id and of its addresses.
unfoldable pub listener_addr : Bytes → List Bytes → Bytes
listener_addr id addrs = join (codes " ") (id ∷ map (λ a. a ++ (codes "/p2p/" ++ id)) addrs)
