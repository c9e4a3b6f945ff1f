-- ===== src/Subprocess/Frames.antt =====
-- internal/execproto/execproto.go: the spawn header and the tagged frames.
pub mod RoundTrip
use remote_adapter.Prelude.{
  ℕ, ◌+◌, ◌%◌, ◌^◌, Bool, not, ◌||◌, Option, none, some, List, [], ◌∷◌, ◌++◌, Bytes, length, take,
  drop, ltb, ◌==◌, if◌then◌else◌,
}
use remote_adapter.Prelude.Int.{ℤ, pos, negsuc, to_word, of_word}
use remote_adapter.Protocol.Types.{
  Result, ok, err, ◌>>=◌, frame_too_large, header_too_large, bad_header,
}
use remote_adapter.Protocol.Frame.{put_u32, big_endian, read_full}

abbrev pub tag_stdout : ℕ
tag_stdout = b'O'

abbrev pub tag_stderr : ℕ
tag_stderr = b'E'

abbrev pub tag_exit : ℕ
tag_exit = b'X'

abbrev pub tag_signal : ℕ
tag_signal = b'S'

abbrev pub tag_stdin : ℕ
tag_stdin = b'I'

-- 1 << 20
abbrev pub max_chunk : ℕ
max_chunk = 1_048_576

pub record SpawnRequest : Type 0 where
  pub path : Bytes
  pub argv : List Bytes
  pub cwd : Bytes
  pub env : List Bytes

-- What the header asks of encoding/json.
pub record Json : Type 0 where
  pub marshal : SpawnRequest → Result Bytes
  pub unmarshal : Bytes → Option SpawnRequest

pub record Frame : Type 0 where
  pub tag : ℕ
  pub body : Bytes

unfoldable pub write_spawn_request : Json → SpawnRequest → Result Bytes
write_spawn_request j r = do body ← j.marshal r; ok (put_u32 (length body % 2 ^ 32) ++ body)

abbrev pub decoded : Option SpawnRequest → Bytes → Result (SpawnRequest × Bytes)
decoded none s = err bad_header
decoded (some r) s = ok (r, s)

unfoldable pub read_spawn_request : Json → Bytes → Result (SpawnRequest × Bytes)
read_spawn_request j s = do
  (hdr, s') ← read_full 4 s
  let n = big_endian 0 hdr
  if ltb 16_777_216 n
      then err (header_too_large n)
      else (read_full n s' >>= λ (body, rest). decoded (j.unmarshal body) rest)

-- What is over the cap is dropped.
abbrev pub capped : Bytes → Bytes
capped b = if ltb max_chunk (length b) then take max_chunk b else b

unfoldable pub write_chunk : ℕ → Bytes → Bytes
write_chunk tag b = tag ∷ (put_u32 (length (capped b)) ++ capped b)

unfoldable pub write_exit : ℤ → Bytes
write_exit code = tag_exit ∷ (put_u32 4 ++ put_u32 (to_word (2 ^ 32) code))

unfoldable pub write_signal : ℤ → Bytes
write_signal signum = tag_signal ∷ (put_u32 4 ++ put_u32 (to_word (2 ^ 32) signum))

-- The tag of a header that was read in full.
abbrev pub first : Bytes → ℕ
first [] = 0
first (c ∷ b) = c

unfoldable pub read_frame : Bytes → Result (Frame × Bytes)
read_frame s = do
  (hdr, s') ← read_full 5 s
  let n = big_endian 0 (drop 1 hdr)
  if ltb max_chunk n
      then err (frame_too_large n)
      else (read_full n s' >>= λ (body, rest). ok (record { tag = first hdr; body = body }, rest))

abbrev payload : ℤ → ℕ → Frame → ℤ
payload default tag f =
    if not (f.tag == tag) || ltb (length f.body) 4
    then default
    else of_word (2 ^ 32) (2 ^ 31) (big_endian 0 (take 4 f.body))

-- `Frame.ExitCode`.
unfoldable pub exit_code : Frame → ℤ
exit_code = payload (negsuc 0) tag_exit

-- `Frame.Signum`.
unfoldable pub signum : Frame → ℤ
signum = payload (pos 0) tag_signal
