-- ===== src/Pairing/Code.antt =====
-- internal/paircode/paircode.go: the code that carries a peer id and its addresses.
pub mod RoundTrip
use remote_adapter.Prelude.{
  ℕ, zero, suc, ◌+◌, Bool, true, false, Option, none, some, List, [], ◌∷◌, ◌++◌, Bytes, codes,
  length, take, drop, ltb, cut_prefix, trim_space, if◌then◌else◌,
}
use remote_adapter.Prelude.FilePath.{is_empty}
use remote_adapter.Pairing.Uvarint.{put_uvarint, get_uvarint}
use remote_adapter.Pairing.Base64.{encode, decode}

-- What the code asks of go-libp2p and go-multiaddr: a peer id is its bytes, with `Validate` and
-- `IDFromBytes`; a multiaddr has `Bytes`, and is parsed by `NewMultiaddrBytes`.
pub record Peers : Type 1 where
  pub PeerId : Type 0
  pub Addr : Type 0
  pub id_bytes : PeerId → Bytes
  pub validate : PeerId → Bool
  pub id_from_bytes : Bytes → Option PeerId
  pub addr_bytes : Addr → Bytes
  pub addr_from_bytes : Bytes → Option Addr

-- peer.AddrInfo.
pub record AddrInfo (p : Peers) : Type 0 where
  pub id : p.PeerId
  pub addrs : List p.Addr

pub data CodeError : Type 0 where
  invalid_id not_a_code bad_base64 truncated_length truncated_payload truncated_count trailing_bytes
        bad_id bad_addr :
      CodeError

pub data Decoded {ℓ} (A : Type ℓ) : Type ℓ where
  good : A → Decoded A
  bad : CodeError → Decoded A

infixl 5 ◌>>=◌
abbrev pub ◌>>=◌ {ℓ κ} : {A : Type ℓ} {B : Type κ} → Decoded A → (A → Decoded B) → Decoded B
good a >>= f = f a
bad e >>= f = bad e

abbrev pub code_prefix : Bytes
code_prefix = codes "rca1."

unfoldable pub put_chunk : Bytes → Bytes
put_chunk b = put_uvarint (length b) ++ b

abbrev pub require {ℓ} : {A : Type ℓ} → CodeError → Option A → Decoded A
require e none = bad e
require e (some a) = good a

abbrev pub payload : ℕ × Bytes → Decoded (Bytes × Bytes)
payload (n, s) = if ltb (length s) n then bad truncated_payload else good (take n s, drop n s)

-- `readChunk`.
unfoldable pub read_chunk : Bytes → Decoded (Bytes × Bytes)
read_chunk s = require truncated_length (get_uvarint s) >>= payload

module _ (p : Peers) where
  unfoldable pub put_addrs : List p.Addr → Bytes
  put_addrs [] = []
  put_addrs (a ∷ addrs) = put_chunk (p.addr_bytes a) ++ put_addrs addrs

  -- `Encode`.
  unfoldable pub encode_code : AddrInfo p → Decoded Bytes
  encode_code info =
      if p.validate info.id
      then good (
          code_prefix
          ++ encode (
              put_chunk (p.id_bytes info.id)
              ++ (put_uvarint (length info.addrs) ++ put_addrs info.addrs)))
      else bad invalid_id

  -- One round of the loop over the addresses, before the rounds that are left.
  abbrev pub read_addr :
      (Bytes → Decoded (List p.Addr × Bytes)) → Bytes × Bytes → Decoded (List p.Addr × Bytes)
  read_addr rounds (chunk, rest) = do
    a ← require bad_addr (p.addr_from_bytes chunk)
    (addrs, rest') ← rounds rest
    good (a ∷ addrs, rest')

  -- A count is a uint64; the loop ends with the first chunk that is not there.
  unfoldable pub read_addrs : ℕ → Bytes → Decoded (List p.Addr × Bytes)
  read_addrs zero s = good ([], s)
  read_addrs (suc n) s = read_chunk s >>= read_addr (read_addrs n)

  abbrev pub nothing_left : p.PeerId → List p.Addr × Bytes → Decoded (AddrInfo p)
  nothing_left id (addrs, []) = good (record { id = id; addrs = addrs })
  nothing_left id (addrs, c ∷ s) = bad trailing_bytes

  unfoldable pub read_info : Bytes → Decoded (AddrInfo p)
  unfolding read_chunk read_addrs
  read_info s = do
    (id_chunk, s1) ← read_chunk s
    id ← require bad_id (p.id_from_bytes id_chunk)
    (n, s2) ← require truncated_count (get_uvarint s1)
    found ← read_addrs n s2
    nothing_left id found

  -- `Decode`.
  unfoldable pub decode_code : Bytes → Decoded (AddrInfo p)
  decode_code code = do
    text ← require not_a_code (cut_prefix code_prefix (trim_space code))
    buf ← require bad_base64 (decode text)
    read_info buf
