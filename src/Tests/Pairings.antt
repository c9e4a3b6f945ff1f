-- ===== src/Tests/Pairings.antt =====
-- Runs of a pairing code, over peers whose ids and addresses are their bytes.
use remote_adapter.Prelude.{◌≡◌, refl, true, some, [], ◌∷◌, Bytes, codes, arith}
use remote_adapter.Pairing.Uvarint.{put_uvarint}
use remote_adapter.Pairing.Code.{
  Peers, AddrInfo, good, put_chunk, put_addrs, encode_code, decode_code,
}
use remote_adapter.Pairing.Base64.{encode}
use remote_adapter.Pairing.Code.RoundTrip.{decode_code-encode_code}

abbrev byte_peers : Peers
byte_peers = record {
  PeerId = Bytes;
  Addr = Bytes;
  id_bytes = λ i. i;
  validate = λ i. true;
  id_from_bytes = λ b. some b;
  addr_bytes = λ a. a;
  addr_from_bytes = λ b. some b;
}

abbrev two_addrs : AddrInfo byte_peers
two_addrs = record { id = 1 ∷ 255 ∷ []; addrs = (7 ∷ []) ∷ [] ∷ [] }

code_run : encode_code byte_peers two_addrs ≡ good (codes "rca1.AgH_AgEHAA")
unfolding encode_code put_chunk put_addrs put_uvarint encode remote_adapter.Pairing.Base64.digit
code_run = refl

decode_code-encode_code_example : decode_code byte_peers (codes "rca1.AgH_AgEHAA") ≡ good two_addrs
decode_code-encode_code_example =
    decode_code-encode_code byte_peers two_addrs (codes "rca1.AgH_AgEHAA") code_run refl
      (omega arith) (omega arith, (omega arith, tt)) (omega arith)
      (
        record { back = refl; short = omega arith; bytes = (omega arith, tt) },
        (record { back = refl; short = omega arith; bytes = tt }, tt),
      )
