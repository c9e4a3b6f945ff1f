-- ===== src/Protocol/Parser/Laws.antt =====
-- Each reader takes back what the builder appended, with anything behind it.
use remote_adapter.Prelude.{
  ℕ, ◌+◌, ◌%◌, ◌^◌, ◌<◌, ◌≡◌, ◌∙◌, refl, ap, subst, [], ◌∷◌, ◌++◌, Bytes, length, length-append,
  take-length_append, drop-length_append, le→ltb, arith, append_assoc, append-nil,
}
use remote_adapter.Prelude.Int.{ℤ, Fits, to_word, of_word-to_word, to_word_lt}
use remote_adapter.Protocol.Types.{Error}
use remote_adapter.Protocol.Frame.{put_u32, put_u64, big_endian}
use remote_adapter.Protocol.Frame.Laws.{
  big_endian-put_u32, big_endian-put_u64, length-put_u32, length-put_u64,
}
use remote_adapter.Protocol.Parser.{start, read, u8, u32, u64, i32, i64, bytes, put_bytes}

read-append {ℓ} :
    {A : Type ℓ} (n : ℕ) (b s : Bytes) (e : Error) (d : A) (decode : Bytes → A)
    → length b ≡ n
    → read n e d decode (start (b ++ s)) ≡ (decode b, start s)
unfolding read
read-append n b s e d decode h =
    subst (λ k. read k e d decode (start (b ++ s)) ≡ (decode b, start s)) h
      (rw (le→ltb (length (b ++ s)) (length b) (omega (arith, length-append b s)))
        (rw (take-length_append b s) (rw (drop-length_append b s))))

pub u8-cons : (v : ℕ) (s : Bytes) → u8 (start (v ∷ s)) ≡ (v, start s)
unfolding u8 big_endian
u8-cons v s =
    read-append 1 (v ∷ []) s _ 0 (big_endian 0) refl ∙ ap (λ n. (n, start s)) (omega arith)

pub u32-put_u32 :
    (v : ℕ) (s : Bytes) → v < 4_294_967_296 → u32 (start (put_u32 v ++ s)) ≡ (v, start s)
unfolding u32
u32-put_u32 v s h =
    read-append 4 (put_u32 v) s _ 0 (big_endian 0) (length-put_u32 v)
    ∙ ap (λ n. (n, start s)) (big_endian-put_u32 v h)

pub u64-put_u64 : (v : ℕ) (s : Bytes) → v < 2 ^ 64 → u64 (start (put_u64 v ++ s)) ≡ (v, start s)
unfolding u64
u64-put_u64 v s h =
    read-append 8 (put_u64 v) s _ 0 (big_endian 0) (length-put_u64 v)
    ∙ ap (λ n. (n, start s)) (big_endian-put_u64 v h)

pub i32-put_u32 :
    (z : ℤ) (s : Bytes)
    → Fits (2 ^ 31) z
    → i32 (start (put_u32 (to_word (2 ^ 32) z) ++ s)) ≡ (z, start s)
unfolding i32
i32-put_u32 z s h =
    rw (u32-put_u32 (to_word (2 ^ 32) z) s (to_word_lt (2 ^ 32) z (omega arith)))
      (ap (λ y. (y, start s)) (of_word-to_word (2 ^ 32) (2 ^ 31) z refl h))

pub i64-put_u64 :
    (z : ℤ) (s : Bytes)
    → Fits (2 ^ 63) z
    → i64 (start (put_u64 (to_word (2 ^ 64) z) ++ s)) ≡ (z, start s)
unfolding i64
i64-put_u64 z s h =
    rw (u64-put_u64 (to_word (2 ^ 64) z) s (to_word_lt (2 ^ 64) z (omega arith)))
      (ap (λ y. (y, start s)) (of_word-to_word (2 ^ 64) (2 ^ 63) z refl h))

pub bytes-put_bytes :
    (b s : Bytes)
    → length b + length s < 4_294_967_296
    → bytes (start (put_bytes b ++ s)) ≡ (b, start s)
unfolding bytes put_bytes
bytes-put_bytes b s h = rw append_assoc (
    rw (u32-put_u32 (length b % 2 ^ 32) (b ++ s) (omega arith)) (
      rw (le→ltb (length (b ++ s) % 2 ^ 32) (length b % 2 ^ 32) (omega (arith, length-append b s)))
        (rw (keeps) (rw (take-length_append b s) (rw (drop-length_append b s))))))
  where
    keeps : length b % 4_294_967_296 ≡ length b
    keeps = omega arith

-- The same for the last field of a body.
pub u32-put_u32_last : (v : ℕ) → v < 4_294_967_296 → u32 (start (put_u32 v)) ≡ (v, start [])
u32-put_u32_last v h = rw (← append-nil (put_u32 v)) (u32-put_u32 v [] h)

pub u64-put_u64_last : (v : ℕ) → v < 2 ^ 64 → u64 (start (put_u64 v)) ≡ (v, start [])
u64-put_u64_last v h = rw (← append-nil (put_u64 v)) (u64-put_u64 v [] h)

pub i64-put_u64_last :
    (z : ℤ) → Fits (2 ^ 63) z → i64 (start (put_u64 (to_word (2 ^ 64) z))) ≡ (z, start [])
i64-put_u64_last z h = rw (← append-nil (put_u64 (to_word (2 ^ 64) z))) (i64-put_u64 z [] h)

pub bytes-put_bytes_last :
    (b : Bytes) → length b < 4_294_967_296 → bytes (start (put_bytes b)) ≡ (b, start [])
bytes-put_bytes_last b h = rw (← append-nil (put_bytes b)) (bytes-put_bytes b [] (omega arith))

pub length-put_bytes : (b : Bytes) → length (put_bytes b) ≡ 4 + length b
unfolding put_bytes
length-put_bytes b =
    length-append (put_u32 (length b % 2 ^ 32)) b
    ∙ omega (arith, length-put_u32 (length b % 2 ^ 32))
