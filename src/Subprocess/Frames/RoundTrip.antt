-- ===== src/Subprocess/Frames/RoundTrip.antt =====
-- What is written on the stream of a subprocess is read back.
use remote_adapter.Prelude.{
  ℕ, suc, ◌^◌, ◌≤◌, ◌≡◌, refl, ap, ◌∷◌, ◌++◌, Bytes, length, le→ltb, arith, append_assoc,
}
use remote_adapter.Prelude.Int.{ℤ, to_word, of_word, of_word-to_word, to_word_lt, Fits}
use remote_adapter.Protocol.Types.{ok}
use remote_adapter.Protocol.Frame.{put_u32, big_endian}
use remote_adapter.Protocol.Frame.Laws.{big_endian-put_u32, read_full-append, length-put_u32}
use remote_adapter.Subprocess.Frames.{
  Frame, write_chunk, write_exit, write_signal, read_frame, exit_code, signum, max_chunk, tag_exit,
  tag_signal,
}

read_frame-raw :
    (tag : ℕ) (b rest : Bytes)
    → length b ≤ max_chunk
    → read_frame (tag ∷ ((put_u32 (length b) ++ b) ++ rest))
      ≡ ok (record { tag = tag; body = b }, rest)
unfolding read_frame
read_frame-raw tag b rest le = rw append_assoc (
    rw
      (read_full-append 5 (tag ∷ put_u32 (length b)) (b ++ rest)
        (ap suc (length-put_u32 (length b))))
      (rw (big_endian-put_u32 (length b) (omega arith))
        (rw (le→ltb max_chunk (length b) le) (rw (read_full-append (length b) b rest refl)))))

-- A chunk of at most 1 MiB is read back whole, with its tag, and what follows it is left.
pub read_frame-write_chunk :
    (tag : ℕ) (b rest : Bytes)
    → length b ≤ max_chunk
    → read_frame (write_chunk tag b ++ rest) ≡ ok (record { tag = tag; body = b }, rest)
unfolding write_chunk
read_frame-write_chunk tag b rest le =
    rw (le→ltb max_chunk (length b) le) (read_frame-raw tag b rest le)

word_back :
    (z : ℤ)
    → Fits (2 ^ 31) z
    → of_word (2 ^ 32) (2 ^ 31) (big_endian 0 (put_u32 (to_word (2 ^ 32) z))) ≡ z
word_back z f =
    rw (big_endian-put_u32 (to_word (2 ^ 32) z) (to_word_lt (2 ^ 32) z (omega arith)))
      (of_word-to_word (2 ^ 32) (2 ^ 31) z refl f)

abbrev exit_frame : ℤ → Frame
exit_frame code = record { tag = tag_exit; body = put_u32 (to_word (2 ^ 32) code) }

-- An exit frame is read back, and what follows it is left; its code is the one written, where that
-- fits 32 bits.
pub read_frame-write_exit :
    (code : ℤ) (rest : Bytes)
    → Fits (2 ^ 31) code
    → (f : Frame) × (read_frame (write_exit code ++ rest) ≡ ok (f, rest))
      × (f.tag ≡ tag_exit)
      × (exit_code f ≡ code)
unfolding write_exit exit_code put_u32
read_frame-write_exit code rest f = (
  exit_frame code,
  read_frame-raw tag_exit (put_u32 (to_word (2 ^ 32) code)) rest (omega arith),
  refl,
  word_back code f,
)

-- A signal frame is read back, and what follows it is left; its number is the one written, where
-- that fits 32 bits.
pub read_frame-write_signal :
    (n : ℤ) (rest : Bytes)
    → Fits (2 ^ 31) n
    → (f : Frame) × (read_frame (write_signal n ++ rest) ≡ ok (f, rest))
      × (f.tag ≡ tag_signal)
      × (signum f ≡ n)
unfolding write_signal signum put_u32
read_frame-write_signal n rest f = (
  record { tag = tag_signal; body = put_u32 (to_word (2 ^ 32) n) },
  read_frame-raw tag_signal (put_u32 (to_word (2 ^ 32) n)) rest (omega arith),
  refl,
  word_back n f,
)
