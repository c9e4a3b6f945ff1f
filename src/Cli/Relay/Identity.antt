-- ===== src/Cli/Relay/Identity.antt =====
-- A relay that is given the key that it printed.
use remote_adapter.Prelude.{
  ◌≡◌, ◌≢◌, ◌∙◌, refl, ap, sym, Bool-cases, inl, inr, false, Option, none, some, List, [], ◌∷◌,
  Bytes, codes, All, equal, if◌then◌else◌,
}
use remote_adapter.Prelude.FilePath.{is_empty}
use remote_adapter.Pairing.Uvarint.{IsByte}
use remote_adapter.Pairing.StdBase64.{std_encode, std_decode, std_decode-std_encode}
use remote_adapter.Transport.Libp2p.{new_libp2p_host}
use remote_adapter.Cli.Relay.{
  RelayHost, RelayFlags, config, relaying, with_identity, key_name, kept, unmarshalled, marshalled,
  generated, identity_of, relay_identity, relay_with, cmd_relay,
}

-- The same host, with RCA_RELAY_KEY set; the key that crypto/rand gives this time is another.
abbrev pub with_key : (h : RelayHost) → Option h.Key → Bytes → RelayHost
with_key h fresh enc = record h {
  generate = fresh;
  getenv = λ v. if equal v key_name then enc else h.getenv v;
}

std_encode_some : (raw : Bytes) → raw ≢ [] → is_empty (std_encode raw) ≡ false
unfolding std_encode
std_encode_some [] ne = absurd (ne refl)
std_encode_some (a ∷ []) ne = refl
std_encode_some (a ∷ b ∷ []) ne = refl
std_encode_some (a ∷ b ∷ c ∷ s) ne = refl

-- A key that a relay was given by the value that it printed for it.
identity_again :
    (h : RelayHost) (fresh : Option h.Key) (key : h.Key) (raw : Bytes)
    → h.unmarshal raw ≡ some key
    → All IsByte raw
    → raw ≢ []
    → relay_identity (with_key h fresh (std_encode raw)) ≡ some (key, none)
unfolding relay_identity equal
identity_again h fresh key raw back bytes ne =
    ap (λ b. if b then generated h fresh else unmarshalled h (std_decode (std_encode raw)))
      (std_encode_some raw ne)
    ∙ ap (unmarshalled h) (std_decode-std_encode raw bytes)
    ∙ ap (kept h) back

identity_made :
    (h : RelayHost) (key : h.Key) (raw : Bytes)
    → h.getenv key_name ≡ []
    → h.generate ≡ some key
    → h.marshal key ≡ some raw
    → relay_identity h ≡ some (key, some (std_encode raw))
unfolding relay_identity
identity_made h key raw unset made written =
    ap (identity_of h) unset ∙ ap (generated h) made ∙ ap (marshalled h key) written

relaying_on :
    (h : RelayHost) (p q : Option Bytes) (n : Option h.Node)
    → ((relaying h p n).printed ≡ p)
      × (◌≡◌ {A = Option h.Node} (relaying h p n).node (relaying h q n).node)
relaying_on h p q none = (refl, refl)
relaying_on h p q (some n) = elim (Bool-cases (h.relays n)) [
  | inl on ↦ rw on (refl, refl)
  | inr off ↦ rw off (refl, refl)
]

-- A relay that made a key keeps its identity over a restart: run again with RCA_RELAY_KEY set to what it
-- printed, with the same flags, it is the same host and prints no key, whatever key would be generated
-- that time. libp2p must read a key back from the bytes, at least one, that it writes for it.
pub cmd_relay-again :
    (h : RelayHost) (args : List Bytes) (f : RelayFlags) (fresh : Option h.Key) (key : h.Key)
    (raw : Bytes)
    → h.getenv key_name ≡ []
    → h.generate ≡ some key
    → h.marshal key ≡ some raw
    → h.unmarshal raw ≡ some key
    → All IsByte raw
    → raw ≢ []
    → h.flags (h.getenv (codes "RCA_RELAY_ANNOUNCE")) args ≡ some f
    → let again = cmd_relay (with_key h fresh (std_encode raw)) args in
      ((cmd_relay h args).printed ≡ some (std_encode raw))
      × (again.printed ≡ none)
      × (again.node ≡ (cmd_relay h args).node)
unfolding cmd_relay equal new_libp2p_host
cmd_relay-again h args f fresh key raw unset made written back bytes ne parsed =
    let first = runs h (identity_made h key raw unset made written) parsed in
    let second =
      runs (with_key h fresh (std_encode raw)) (identity_again h fresh key raw back bytes ne)
        parsed in
    let host = new_libp2p_host h.parse h.new h.generate (some key) (config f) in
    (
      ap (λ e. e.printed) first ∙ (relaying_on h (some (std_encode raw)) none host).0,
      ap (λ e. e.printed) second ∙ (relaying_on h none none host).0,
      ap (λ e. e.node) second
          ∙ (relaying_on h none (some (std_encode raw)) host).1
          ∙ sym (ap (λ e. e.node) first),
    )
  where
    runs :
        (k : RelayHost) {i : Option (k.Key × Option Bytes)}
        → relay_identity k ≡ i
        → k.flags (k.getenv (codes "RCA_RELAY_ANNOUNCE")) args ≡ some f
        → cmd_relay k args ≡ with_identity k f i
    runs k e p = ap (relay_with k (relay_identity k)) p ∙ ap (with_identity k f) e
