-- ===== src/Pairing/Code/RoundTrip.antt =====
-- A pairing code is read back.
use remote_adapter.Prelude.{
  ℕ, ◌≤◌, ◌<◌, ◌^◌, ◌≡◌, ◌∙◌, refl, ap, Bool, true, false, some, List, [], ◌∷◌, ◌++◌, Bytes, length,
  length-append, take-length_append, drop-length_append, le→ltb, arith, All, cut_prefix-append,
  trim_left, trim_space, is_space, append_assoc,
}
use mathlib.Core.List.{reverse, reverse-reverse}
use remote_adapter.Prelude.FilePath.{All-append, All-reverse}
use remote_adapter.Pairing.Uvarint.{
  put_uvarint, get_uvarint-put_uvarint, put_uvarint-IsByte, IsByte,
}
use remote_adapter.Pairing.Base64.{encode, decode-encode, encode_dense}
use remote_adapter.Pairing.Code.{
  Peers, AddrInfo, Decoded, good, code_prefix, put_chunk, read_chunk, put_addrs, encode_code,
  read_addrs, read_info, decode_code,
}

read_chunk-put_chunk :
    (b rest : Bytes) → length b < 2 ^ 64 → read_chunk (put_chunk b ++ rest) ≡ good (b, rest)
unfolding read_chunk put_chunk
read_chunk-put_chunk b rest h = rw append_assoc (
    rw (get_uvarint-put_uvarint (length b) (b ++ rest) h) (
      rw (le→ltb (length (b ++ rest)) (length b) (omega (arith, length-append b rest)))
        (rw (take-length_append b rest) (rw (drop-length_append b rest)))))

put_chunk-IsByte : (b : Bytes) → length b < 2 ^ 64 → All IsByte b → All IsByte (put_chunk b)
unfolding put_chunk
put_chunk-IsByte b h bytes =
    All-append IsByte (put_uvarint (length b)) b (put_uvarint-IsByte (length b) h) bytes

-- Nothing to trim where every byte is above the white space.
trim_left-dense : (s : Bytes) → All (◌≤◌ 45) s → trim_left is_space s ≡ s
unfolding trim_left
trim_left-dense [] h = refl
trim_left-dense (c ∷ s) h = rw (no_space c h.0) refl
  where
    no_space : (c : ℕ) → 45 ≤ c → is_space c ≡ false
    no_space c h = ground arith

trim_space-dense : (s : Bytes) → All (◌≤◌ 45) s → trim_space s ≡ s
unfolding trim_space
trim_space-dense s h =
    ap (λ t. reverse (trim_left is_space (reverse t))) (trim_left-dense s h)
    ∙ ap reverse (trim_left-dense (reverse s) (All-reverse (◌≤◌ 45) s h))
    ∙ reverse-reverse s

-- A multiaddr that is read back from its bytes.
pub record IsStable (p : Peers) (a : p.Addr) : Type 0 where
  pub back : p.addr_from_bytes (p.addr_bytes a) ≡ some a
  pub short : length (p.addr_bytes a) < 2 ^ 64
  pub bytes : All IsByte (p.addr_bytes a)

module _ (p : Peers) where
  read_addrs-put_addrs :
      (addrs : List p.Addr)
      → All (IsStable p) addrs
      → read_addrs p (length addrs) (put_addrs p addrs) ≡ good (addrs, [])
  unfolding read_addrs put_addrs
  read_addrs-put_addrs [] h = refl
  read_addrs-put_addrs (a ∷ addrs) h =
      rw (read_chunk-put_chunk (p.addr_bytes a) (put_addrs p addrs) h.0.short)
        (rw h.0.back (rw (read_addrs-put_addrs addrs h.1)))

  put_addrs-IsByte : (addrs : List p.Addr) → All (IsStable p) addrs → All IsByte (put_addrs p addrs)
  unfolding put_addrs
  put_addrs-IsByte [] h = tt
  put_addrs-IsByte (a ∷ addrs) h =
      All-append IsByte (put_chunk (p.addr_bytes a)) (put_addrs p addrs)
        (put_chunk-IsByte (p.addr_bytes a) h.0.short h.0.bytes) (put_addrs-IsByte addrs h.1)

  body : AddrInfo p → Bytes
  body info =
      put_chunk (p.id_bytes info.id) ++ (put_uvarint (length info.addrs) ++ put_addrs p info.addrs)

  read_info-body :
      (info : AddrInfo p)
      → p.id_from_bytes (p.id_bytes info.id) ≡ some info.id
      → length (p.id_bytes info.id) < 2 ^ 64
      → length info.addrs < 2 ^ 64
      → All (IsStable p) info.addrs
      → read_info p (body info) ≡ good info
  unfolding read_info body
  read_info-body info id short few h = rw (read_chunk-put_chunk (p.id_bytes info.id) _ short) (
      rw id (
        rw (get_uvarint-put_uvarint (length info.addrs) (put_addrs p info.addrs) few)
          (rw (read_addrs-put_addrs info.addrs h))))

  body-IsByte :
      (info : AddrInfo p)
      → length (p.id_bytes info.id) < 2 ^ 64
      → All IsByte (p.id_bytes info.id)
      → length info.addrs < 2 ^ 64
      → All (IsStable p) info.addrs
      → All IsByte (body info)
  unfolding body
  body-IsByte info short bytes few h =
      All-append IsByte (put_chunk (p.id_bytes info.id)) _
        (put_chunk-IsByte (p.id_bytes info.id) short bytes)
        (All-append IsByte (put_uvarint (length info.addrs)) _
          (put_uvarint-IsByte (length info.addrs) few) (put_addrs-IsByte info.addrs h))

  decode_code-body :
      (info : AddrInfo p)
      → All IsByte (body info)
      → decode_code p (code_prefix ++ encode (body info)) ≡ read_info p (body info)
  unfolding decode_code
  decode_code-body info bytes = rw (trim_space-dense (code_prefix ++ encode (body info)) dense) (
      rw (cut_prefix-append code_prefix (encode (body info)))
        (rw (decode-encode (body info) bytes)))
    where
      dense : All (◌≤◌ 45) (code_prefix ++ encode (body info))
      dense = (
        omega arith,
        (omega arith, (omega arith, (omega arith, (omega arith, encode_dense (body info) bytes)))),
      )

  -- A pairing code is read back as the peer id and the addresses that it was made from, in order; where
  -- the id is valid, libp2p reads the id and each address back from its bytes, and no length is 2^64.
  pub decode_code-encode_code :
      (info : AddrInfo p) (code : Bytes)
      → encode_code p info ≡ good code
      → p.id_from_bytes (p.id_bytes info.id) ≡ some info.id
      → length (p.id_bytes info.id) < 2 ^ 64
      → All IsByte (p.id_bytes info.id)
      → length info.addrs < 2 ^ 64
      → All (IsStable p) info.addrs
      → decode_code p code ≡ good info
  unfolding encode_code body
  decode_code-encode_code info code e id short bytes few h = valid (p.validate info.id) refl
    where
      same : {a b : Bytes} → ◌≡◌ {A = Decoded Bytes} (good a) (good b) → b ≡ a
      same x = cc

      valid : (b : Bool) → p.validate info.id ≡ b → decode_code p code ≡ good info
      valid false v = cc (rw v at e)
      valid true v =
          ap (decode_code p) (same (rw v at e))
          ∙ decode_code-body info (body-IsByte info short bytes few h)
          ∙ read_info-body info id short few h
