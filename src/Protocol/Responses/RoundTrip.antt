-- ===== src/Protocol/Responses/RoundTrip.antt =====
-- What `WriteResponse` frames, `ReadResponse` reads back; and what an older peer frames.
use remote_adapter.Prelude.{
  ℕ, suc, ◌+◌, ◌*◌, ◌%◌, ◌^◌, ◌≤◌, ◌<◌, ◌≡◌, ◌∙◌, refl, true, false, List, [], ◌∷◌, ◌++◌, Bytes,
  length, length-append, arith, Bool-cases, inl, inr, ◌⊎◌,
}
use remote_adapter.Prelude.Int.{ℤ, pos, to_word, is_zero, Fits}
use remote_adapter.Protocol.Types.{
  Op, op_stat, op_open, op_pread, op_readdir, op_pwrite, op_create, op_server_info, Response, ok,
  max_frame,
}
use remote_adapter.Protocol.Frame.{put_u32, put_u64}
use remote_adapter.Protocol.Frame.Laws.{
  length-put_u32, length-put_u64, write_frame_bound, read_frame-write_frame,
}
use remote_adapter.Protocol.Parser.{start, left, put_bytes}
use remote_adapter.Protocol.Parser.Laws.{
  u8-cons, u32-put_u32, u64-put_u64, u64-put_u64_last, i32-put_u32, i64-put_u64, i64-put_u64_last,
  bytes-put_bytes, bytes-put_bytes_last, length-put_bytes,
}
use remote_adapter.Protocol.Requests.{finish}
use remote_adapter.Protocol.Responses.{
  put_entries, response_fields, write_response, read_entries, read_mtime, read_answer,
  parse_response, read_response,
}
use remote_adapter.Protocol.Responses.Shape.{pad, answer, answered, InRange}

ruleset lengths = (arith, length-put_u32, length-put_u64, length-put_bytes)

put_entries_long : (ns : List Bytes) (ts : List ℕ) → 5 * length ns ≤ length (put_entries ns ts)
unfolding put_entries
put_entries_long [] ts = omega arith
put_entries_long (n ∷ ns) [] =
    rw (length-append (put_bytes n)) (omega (lengths, put_entries_long ns []))
put_entries_long (n ∷ ns) (t ∷ ts) =
    rw (length-append (put_bytes n)) (omega (lengths, put_entries_long ns ts))

read_entries-cons :
    (n : Bytes) (t k : ℕ) (s : Bytes)
    → length n + length s < 4_294_967_295
    → read_entries (suc k) (start (put_bytes n ++ (t ∷ s))) ≡ (
      (n ∷ (read_entries k (start s)).0.0, t ∷ (read_entries k (start s)).0.1),
      (read_entries k (start s)).1,
    )
unfolding read_entries
read_entries-cons n t k s h = simp (bytes-put_bytes n (t ∷ s) (omega arith), u8-cons t s)

read_entries-put_entries :
    (ns : List Bytes) (ts : List ℕ)
    → length (put_entries ns ts) ≤ max_frame
    → read_entries (length ns) (start (put_entries ns ts)) ≡ ((ns, pad ns ts), start [])
unfolding put_entries pad
read_entries-put_entries [] ts h = unfold read_entries in refl
read_entries-put_entries (n ∷ ns) [] h =
    let h' = rw (length-append (put_bytes n)) at h in
    read_entries-cons n 0 (length ns) (put_entries ns []) (omega lengths)
    ∙ rw (read_entries-put_entries ns [] (omega lengths))
read_entries-put_entries (n ∷ ns) (t ∷ ts) h =
    let h' = rw (length-append (put_bytes n)) at h in
    read_entries-cons n t (length ns) (put_entries ns ts) (omega lengths)
    ∙ rw (read_entries-put_entries ns ts (omega lengths))

read_mtime-put_u64 :
    (z : ℤ) → Fits (2 ^ 63) z → read_mtime (start (put_u64 (to_word (2 ^ 64) z))) ≡ (z, start [])
unfolding read_mtime left
read_mtime-put_u64 z h = rw (length-put_u64 (to_word (2 ^ 64) z)) (i64-put_u64_last z h)

-- The switch of the reader undoes the switch of the writer.
read_answer-response_fields :
    (o : Op) (r : Response)
    → InRange r
    → length (response_fields o r) ≤ max_frame
    → finish (read_answer o (start (response_fields o r))) ≡ ok (answer o r)
unfolding response_fields read_answer answer finish
read_answer-response_fields op_stat r h l = simp (
  u32-put_u32 r.mode (put_u64 (to_word (2 ^ 64) r.size) ++ put_u64 (to_word (2 ^ 64) r.mtime))
      h.mode,
  i64-put_u64 r.size (put_u64 (to_word (2 ^ 64) r.mtime)) h.size,
  read_mtime-put_u64 r.mtime h.mtime,
)
read_answer-response_fields op_open r h l = simp (
  u32-put_u32 r.mode
      (put_u64 (to_word (2 ^ 64) r.size)
        ++ (put_u64 r.handle ++ put_u64 (to_word (2 ^ 64) r.mtime)))
      h.mode,
  i64-put_u64 r.size (put_u64 r.handle ++ put_u64 (to_word (2 ^ 64) r.mtime)) h.size,
  u64-put_u64 r.handle (put_u64 (to_word (2 ^ 64) r.mtime)) h.handle,
  read_mtime-put_u64 r.mtime h.mtime,
)
read_answer-response_fields op_create r h l = simp (
  u32-put_u32 r.mode
      (put_u64 (to_word (2 ^ 64) r.size)
        ++ (put_u64 r.handle ++ put_u64 (to_word (2 ^ 64) r.mtime)))
      h.mode,
  i64-put_u64 r.size (put_u64 r.handle ++ put_u64 (to_word (2 ^ 64) r.mtime)) h.size,
  u64-put_u64 r.handle (put_u64 (to_word (2 ^ 64) r.mtime)) h.handle,
  read_mtime-put_u64 r.mtime h.mtime,
)
read_answer-response_fields op_pread r h l = rw (bytes-put_bytes_last r.body (omega lengths))
read_answer-response_fields op_pwrite r h l = rw (i64-put_u64_last r.size h.size)
read_answer-response_fields op_readdir r h l =
    let l' = rw (length-append (put_u32 (length r.names % 2 ^ 32))) at l in
    let few : length r.names < 4_294_967_296 = omega (lengths, put_entries_long r.names r.types) in
    rw (fits_count few) (
      simp (
        u32-put_u32 (length r.names) (put_entries r.names r.types) few,
        read_entries-put_entries r.names r.types (omega lengths),
      ))
  where
    fits_count : length r.names < 4_294_967_296 → length r.names % 4_294_967_296 ≡ length r.names
    fits_count h = omega arith
read_answer-response_fields op_server_info r h l =
    let l' = rw (length-append (put_bytes r.os)) at l in
    simp (
      bytes-put_bytes r.os (put_bytes r.arch) (omega lengths),
      bytes-put_bytes_last r.arch (omega lengths),
    )
read_answer-response_fields _ r h l = refl

abbrev error_bytes : Response → Bytes
error_bytes r = put_u32 (to_word (2 ^ 32) r.error)

parse_response_success :
    (o : Op) (r : Response)
    → InRange r
    → is_zero r.error ≡ true
    → length (response_fields o r) ≤ max_frame
    → parse_response o (error_bytes r ++ response_fields o r) ≡ ok (answered o r)
unfolding parse_response answered
parse_response_success o r h success l =
    rw (i32-put_u32 r.error (response_fields o r) h.error)
      (rw success (read_answer-response_fields o r h l))

parse_response_failure :
    (o : Op) (r : Response)
    → InRange r
    → is_zero r.error ≡ false
    → parse_response o (error_bytes r ++ []) ≡ ok (answered o r)
unfolding parse_response answered finish
parse_response_failure o r h failure = rw (i32-put_u32 r.error [] h.error) (rw failure refl)

-- Every response that `WriteResponse` frames for an op, with its numbers in the range of their
-- types, is read back by `ReadResponse` for that op: a success as the fields of the op, a failure as
-- its error number. What follows on the stream is left.
pub read_response-write_response :
    (o : Op) (r : Response) (wire rest : Bytes)
    → InRange r
    → write_response o r ≡ ok wire
    → read_response o (wire ++ rest) ≡ ok (answered o r, rest)
unfolding write_response read_response
read_response-write_response o r wire rest h e =
    rw (read_frame-write_frame _ wire rest e) (elim (Bool-cases (is_zero r.error)) [
      | inl success ↦ rw success (rw (parse_response_success o r h success (short success)))
      | inr failure ↦ rw failure (rw (parse_response_failure o r h failure))
    ])
  where
    short : is_zero r.error ≡ true → length (response_fields o r) ≤ max_frame
    short success = omega (
      arith,
      length-append (error_bytes r) (response_fields o r),
      (rw success at (write_frame_bound _ wire e)).0,
    )

-- A successful answer to `OpStat`, `OpOpen` or `OpCreate` as a peer that predates `Mtime` frames it.
abbrev pub legacy_fields : Op → Response → Bytes
legacy_fields op_stat r = put_u32 r.mode ++ put_u64 (to_word (2 ^ 64) r.size)
legacy_fields _ r = put_u32 r.mode ++ (put_u64 (to_word (2 ^ 64) r.size) ++ put_u64 r.handle)

abbrev pub HasMtime : Op → Type 0
HasMtime o = (o ≡ op_stat) ⊎ (o ≡ op_open) ⊎ (o ≡ op_create)

read_answer_legacy :
    (o : Op) (r : Response)
    → InRange r
    → HasMtime o
    → finish (read_answer o (start (legacy_fields o r)))
      ≡ ok (record (answer o r) { mtime = pos 0 })
unfolding read_answer answer finish read_mtime left
read_answer_legacy op_stat r h m =
    simp (
      u32-put_u32 r.mode (put_u64 (to_word (2 ^ 64) r.size)) h.mode,
      i64-put_u64_last r.size h.size,
    )
read_answer_legacy op_open r h m = simp (
  u32-put_u32 r.mode (put_u64 (to_word (2 ^ 64) r.size) ++ put_u64 r.handle) h.mode,
  i64-put_u64 r.size (put_u64 r.handle) h.size,
  u64-put_u64_last r.handle h.handle,
)
read_answer_legacy op_create r h m = simp (
  u32-put_u32 r.mode (put_u64 (to_word (2 ^ 64) r.size) ++ put_u64 r.handle) h.mode,
  i64-put_u64 r.size (put_u64 r.handle) h.size,
  u64-put_u64_last r.handle h.handle,
)
read_answer_legacy _ r h m = absurd (ground arith)

-- The success that a peer which predates `Mtime` sends for an `OpStat`, `OpOpen` or `OpCreate` is
-- read with a modification time of 0 and every other field as it was sent, where the numbers are in
-- the range of their types.
pub parse_response_legacy :
    (o : Op) (r : Response)
    → InRange r
    → HasMtime o
    → parse_response o (put_u32 0 ++ legacy_fields o r) ≡ ok (record (answer o r) { mtime = pos 0 })
unfolding parse_response
parse_response_legacy o r h m =
    rw (i32-put_u32 (pos 0) (legacy_fields o r) (omega arith)) (read_answer_legacy o r h m)
