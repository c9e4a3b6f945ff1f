-- ===== src/Protocol/Frame.antt =====
-- internal/protocol/protocol.go: big-endian words and length-prefixed frames.
-- A writer is the bytes handed to it; a reader is the bytes that it yields before its end.
pub mod Laws
pub mod Cut
use remote_adapter.Prelude.{
  ℕ, ◌+◌, ◌*◌, ◌/◌, ◌%◌, ◌^◌, List, [], ◌∷◌, ◌++◌, Bytes, length, take, drop, ltb, ◌==◌,
  if◌then◌else◌,
}
use remote_adapter.Protocol.Types.{
  Result, ok, err, ◌>>=◌, eof, unexpected_eof, frame_too_large, max_frame,
}

-- binary.BigEndian.AppendUint32 and AppendUint64: the bytes that are appended.
unfoldable pub put_u32 : ℕ → Bytes
put_u32 v = (v / 16_777_216 % 256) ∷ (v / 65_536 % 256) ∷ (v / 256 % 256) ∷ (v % 256) ∷ []

unfoldable pub put_u64 : ℕ → Bytes
put_u64 v = put_u32 (v / 4_294_967_296) ++ put_u32 (v % 4_294_967_296)

-- The number that the bytes spell, highest byte first, on top of `acc`.
unfoldable pub big_endian : ℕ → Bytes → ℕ
big_endian acc [] = acc
big_endian acc (b ∷ bs) = big_endian (acc * 256 + b) bs

-- io.ReadFull into a buffer of `n` bytes.
unfoldable pub read_full : ℕ → Bytes → Result (Bytes × Bytes)
read_full n s =
    if ltb (length s) n
    then (if length s == 0 then err eof else err unexpected_eof)
    else ok (take n s, drop n s)

unfoldable pub write_frame : Bytes → Result Bytes
write_frame body =
    if ltb max_frame (length body)
    then err (frame_too_large (length body))
    else ok (put_u32 (length body % 2 ^ 32) ++ body)

unfoldable pub read_frame : Bytes → Result (Bytes × Bytes)
read_frame s = do
  (hdr, s') ← read_full 4 s
  let n = big_endian 0 hdr
  if ltb max_frame n then err (frame_too_large n) else read_full n s'
