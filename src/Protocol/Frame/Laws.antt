-- ===== src/Protocol/Frame/Laws.antt =====
-- Words and frames read back, and the bound on a frame that is written.
use remote_adapter.Prelude.{
  ℕ, ◌+◌, ◌*◌, ◌/◌, ◌%◌, ◌^◌, ◌≤◌, ◌<◌, ◌≡◌, refl, ap, ◌++◌, Bytes, length, length-append,
  take-length_append, drop-length_append, le→ltb, arith, append_assoc, subst, Bool-cases, inl, inr,
  ltb,
}
use remote_adapter.Protocol.Types.{ok, max_frame}
use remote_adapter.Protocol.Frame.{put_u32, put_u64, big_endian, read_full, write_frame, read_frame}

pub length-put_u32 : (v : ℕ) → length (put_u32 v) ≡ 4
unfolding put_u32
length-put_u32 v = refl

pub length-put_u64 : (v : ℕ) → length (put_u64 v) ≡ 8
unfolding put_u64 put_u32
length-put_u64 v = refl

big_endian-put_u32_append :
    (acc v : ℕ) (s : Bytes)
    → v < 4_294_967_296
    → big_endian acc (put_u32 v ++ s) ≡ big_endian (acc * 4_294_967_296 + v) s
unfolding put_u32 big_endian
big_endian-put_u32_append acc v s h = ap (λ n. big_endian n s) (omega arith)

big_endian-put_u32_from :
    (acc v : ℕ) → v < 4_294_967_296 → big_endian acc (put_u32 v) ≡ acc * 4_294_967_296 + v
unfolding put_u32 big_endian
big_endian-put_u32_from acc v h = omega arith

pub big_endian-put_u32 : (v : ℕ) → v < 4_294_967_296 → big_endian 0 (put_u32 v) ≡ v
big_endian-put_u32 v h = omega (arith, big_endian-put_u32_from 0 v h)

pub big_endian-put_u64 : (v : ℕ) → v < 2 ^ 64 → big_endian 0 (put_u64 v) ≡ v
unfolding put_u64
big_endian-put_u64 v h =
    let hi = v / 4_294_967_296 in
    let lo = v % 4_294_967_296 in
    omega (
      arith,
      big_endian-put_u32_append 0 hi (put_u32 lo) (omega arith),
      big_endian-put_u32_from (0 * 4_294_967_296 + hi) lo (omega arith),
    )

pub read_full-append : (n : ℕ) (b s : Bytes) → length b ≡ n → read_full n (b ++ s) ≡ ok (b, s)
unfolding read_full
read_full-append n b s h =
    subst (λ k. read_full k (b ++ s) ≡ ok (b, s)) h
      (rw (le→ltb (length (b ++ s)) (length b) (omega (arith, length-append b s)))
        (rw (take-length_append b s) (rw (drop-length_append b s))))

pub write_frame_bound :
    (body wire : Bytes)
    → write_frame body ≡ ok wire
    → (length body ≤ max_frame) × (wire ≡ put_u32 (length body) ++ body)
unfolding write_frame
write_frame_bound body wire e = elim (Bool-cases (ltb max_frame (length body))) [
  | inl big ↦ cc (rw big at e)
  | inr fits ↦ fitting (ground arith) (rw fits at e)
]
  where
    fitting :
        length body ≤ max_frame
        → ok (put_u32 (length body % 2 ^ 32) ++ body) ≡ ok wire
        → (length body ≤ max_frame) × (wire ≡ put_u32 (length body) ++ body)
    fitting le e' = (le, cc (ap put_u32 (lt_mod le)))
      where
        lt_mod : length body ≤ max_frame → length body % 2 ^ 32 ≡ length body
        lt_mod le = omega arith

pub write_frame_fits :
    (body : Bytes)
    → length body ≤ max_frame
    → write_frame body ≡ ok (put_u32 (length body % 2 ^ 32) ++ body)
unfolding write_frame
write_frame_fits body le = rw (le→ltb max_frame (length body) le) refl

-- A frame that `writeFrame` accepts is read back, and what follows it on the stream is left.
pub read_frame-write_frame :
    (body wire rest : Bytes)
    → write_frame body ≡ ok wire
    → read_frame (wire ++ rest) ≡ ok (body, rest)
unfolding read_frame
read_frame-write_frame body wire rest e =
    let (le, w) = write_frame_bound body wire e in
    rw w (
      rw append_assoc (
        rw (read_full-append 4 (put_u32 (length body)) (body ++ rest) (length-put_u32 _)) (
          rw (big_endian-put_u32 (length body) (omega arith)) (
            rw (le→ltb max_frame (length body) le)
              (read_full-append (length body) body rest refl)))))
