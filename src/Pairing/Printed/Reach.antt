-- ===== src/Pairing/Printed/Reach.antt =====
-- Who reads a printed code learns a way through every relay that holds a reservation.
use remote_adapter.Prelude.{
  ◌≡◌, ◌∙◌, ◌<◌, ◌^◌, refl, ap, sym, subst, inl, inr, Bool, true, false, ◌||◌, Option, none, some,
  List, [], ◌∷◌, ◌++◌, Bytes, codes, map, All, length, equal, equal_iff, Bool-cases, if◌then◌else◌,
}
use remote_adapter.Prelude.FilePath.{is_empty}
use remote_adapter.Pairing.Uvarint.{IsByte}
use remote_adapter.Pairing.Code.{Peers, AddrInfo, good, decode_code}
use remote_adapter.Pairing.Code.RoundTrip.{IsStable, decode_code-encode_code}
use remote_adapter.Pairing.Printed.{
  Multiaddrs, has, not_loopback, or_all, relayed, add_new, add_relays, with_circuit,
  append_circuit_addrs, printed_code,
}

or_right : (a b : Bool) → b ≡ true → (a || b) ≡ true
or_right true b e = refl
or_right false b e = e

or_left : (a b : Bool) → a ≡ true → (a || b) ≡ true
or_left true b e = refl
or_left false b e = cc

or_swap : (a b : Bool) → (a || b) ≡ (b || a)
or_swap true true = refl
or_swap true false = refl
or_swap false true = refl
or_swap false false = refl

or_assoc : (a b c : Bool) → ((a || b) || c) ≡ (a || (b || c))
or_assoc true b c = refl
or_assoc false b c = refl

has-append : (s : Bytes) (ts us : List Bytes) → has s (ts ++ us) ≡ (has s ts || has s us)
unfolding has
has-append s [] us = refl
has-append s (t ∷ ts) us =
    ap (λ b. equal s t || b) (has-append s ts us) ∙ sym (or_assoc (equal s t) (has s ts) (has s us))

map-append : {A : Type 0} (f : A → Bytes) (xs ys : List A) → map f (xs ++ ys) ≡ map f xs ++ map f ys
map-append f [] ys = refl
map-append f (x ∷ xs) ys = ap (◌∷◌ (f x)) (map-append f xs ys)

module _ {p : Peers} (m : Multiaddrs p) where
  -- Whether the addresses have one with this text.
  abbrev pub Reached : p.Addr → List p.Addr → Type 0
  Reached a addrs = has (m.text a) (map m.text addrs) ≡ true

  -- The variable `have` is the texts of the addresses.
  abbrev IsKnown : List p.Addr × List Bytes → Type 0
  IsKnown (addrs, have) = (s : Bytes) → has s have ≡ has s (map m.text addrs)

  has-snoc :
      (s : Bytes) (addrs : List p.Addr) (a : p.Addr)
      → has s (map m.text (addrs ++ (a ∷ []))) ≡ (has s (map m.text addrs) || equal s (m.text a))
  unfolding has
  has-snoc s addrs a =
      ap (has s) (map-append m.text addrs (a ∷ []))
      ∙ has-append s (map m.text addrs) (m.text a ∷ [])
      ∙ ap (λ b. has s (map m.text addrs) || b) (or_swap (equal s (m.text a)) false)

  add_new-IsKnown :
      (o : Option p.Addr) (addrs : List p.Addr) (have : List Bytes)
      → IsKnown (addrs, have)
      → IsKnown (add_new m o (addrs, have))
  unfolding has
  add_new-IsKnown none addrs have k = k
  add_new-IsKnown (some a) addrs have k = elim (Bool-cases (has (m.text a) have)) [
    | inl old ↦ rw old k
    | inr new ↦ rw new (λ s.
        ap (λ b. equal s (m.text a) || b) (k s)
        ∙ or_swap (equal s (m.text a)) (has s (map m.text addrs))
        ∙ sym (has-snoc s addrs a))
  ]

  add_new-Reached :
      (a : p.Addr) (addrs : List p.Addr) (have : List Bytes)
      → IsKnown (addrs, have)
      → Reached a (add_new m (some a) (addrs, have)).0
  add_new-Reached a addrs have k = elim (Bool-cases (has (m.text a) have)) [
    | inl old ↦ rw old (sym (k (m.text a)) ∙ old)
    | inr new ↦ rw new (
        has-snoc (m.text a) addrs a
        ∙ or_right (has (m.text a) (map m.text addrs)) _ ((equal_iff (m.text a) (m.text a)).1 refl))
  ]

  add_new-keeps :
      (a : p.Addr) (o : Option p.Addr) (addrs : List p.Addr) (have : List Bytes)
      → Reached a addrs
      → Reached a (add_new m o (addrs, have)).0
  add_new-keeps a none addrs have h = h
  add_new-keeps a (some b) addrs have h = elim (Bool-cases (has (m.text b) have)) [
    | inl old ↦ rw old h
    | inr new ↦ rw new (has-snoc (m.text a) addrs b ∙ or_left _ (equal (m.text a) (m.text b)) h)
  ]

  module _ (circuit : p.Addr) (reserved : List p.PeerId) where
    add_relays-keeps :
        (a : p.Addr) (relays : List Bytes) (addrs : List p.Addr) (have : List Bytes)
        → Reached a addrs
        → Reached a (add_relays m circuit reserved relays (addrs, have))
    unfolding add_relays
    add_relays-keeps a [] addrs have h = h
    add_relays-keeps a (r ∷ relays) addrs have h =
        add_relays-keeps a relays _ _ (add_new-keeps a (relayed m circuit reserved r) addrs have h)

    add_relays-Reached :
        (a : p.Addr) (before after : List Bytes) (r : Bytes) (addrs : List p.Addr)
        (have : List Bytes)
        → IsKnown (addrs, have)
        → relayed m circuit reserved r ≡ some a
        → Reached a (add_relays m circuit reserved (before ++ (r ∷ after)) (addrs, have))
    unfolding add_relays
    add_relays-Reached a [] after r addrs have k e =
        subst (λ o. Reached a (add_relays m circuit reserved after (add_new m o (addrs, have))))
          (sym e) (add_relays-keeps a after _ _ (add_new-Reached a addrs have k))
    add_relays-Reached a (b ∷ before) after r addrs have k e =
        add_relays-Reached a before after r _ _
          (add_new-IsKnown (relayed m circuit reserved b) addrs have k) e

  IsStable-all : ((a : p.Addr) → IsStable p a) → (addrs : List p.Addr) → All (IsStable p) addrs
  IsStable-all h [] = tt
  IsStable-all h (a ∷ addrs) = (h a, IsStable-all h addrs)

  append_circuit_addrs-Reached :
      (a circuit : p.Addr) (addrs : List p.Addr) (before after : List Bytes) (r : Bytes)
      (reserved : List p.PeerId)
      → is_empty reserved ≡ false
      → m.parse (codes "/p2p-circuit") ≡ some circuit
      → relayed m circuit reserved r ≡ some a
      → Reached a (append_circuit_addrs m addrs (before ++ (r ∷ after)) reserved)
  unfolding append_circuit_addrs
  append_circuit_addrs-Reached a circuit addrs before after r reserved ne c e =
      subst
        (λ b. Reached a (
          if b
          then addrs
          else with_circuit m (m.parse (codes "/p2p-circuit")) addrs (before ++ (r ∷ after))
              reserved))
        (sym ne)
        (subst (λ o. Reached a (with_circuit m o addrs (before ++ (r ∷ after)) reserved)) (sym c)
          (add_relays-Reached circuit reserved a before after r addrs (map m.text addrs) (λ s. refl)
            e))

-- Who decodes the code that `rca serve` prints gets the peer id of the executor and, among the addresses,
-- the way through each relay that was asked for and holds a reservation. It holds where there is a
-- reservation, libp2p knows circuit addresses and reads ids and addresses back from their bytes, and
-- there are fewer than 2^64 of each.
pub printed_code-Reached :
    (p : Peers) (m : Multiaddrs p) (id : p.PeerId) (a circuit : p.Addr) (addrs : List p.Addr)
    (before after : List Bytes) (r : Bytes) (reserved : List p.PeerId) (code : Bytes)
    → is_empty reserved ≡ false
    → m.parse (codes "/p2p-circuit") ≡ some circuit
    → relayed m circuit reserved r ≡ some a
    → printed_code m id addrs (before ++ (r ∷ after)) reserved ≡ good code
    → p.id_from_bytes (p.id_bytes id) ≡ some id
    → length (p.id_bytes id) < 2 ^ 64
    → All IsByte (p.id_bytes id)
    → ((b : p.Addr) → IsStable p b)
    → length (
        append_circuit_addrs m
          (or_all m (not_loopback m addrs) addrs)
          (before ++ (r ∷ after))
          reserved)
      < 2 ^ 64
    → (info : AddrInfo p) × (decode_code p code ≡ good info)
      × (info.id ≡ id)
      × Reached m a info.addrs
unfolding printed_code
printed_code-Reached p m id a circuit addrs before after r reserved code ne c e out back short bytes
      stable few =
    (
      info,
      decode_code-encode_code p info code out back short bytes few
          (IsStable-all m stable info.addrs),
      refl,
      append_circuit_addrs-Reached m a circuit _ before after r reserved ne c e,
    )
  where
    info : AddrInfo p
    info = record {
      id = id;
      addrs =
          append_circuit_addrs m (or_all m (not_loopback m addrs) addrs) (before ++ (r ∷ after))
            reserved;
    }
