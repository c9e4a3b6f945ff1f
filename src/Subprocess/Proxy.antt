-- ===== src/Subprocess/Proxy.antt =====
-- cmd/rca/spawnproxy.go and the pumps of internal/executor/exec.go: the output of a child, from its two
-- pipes to the proxy's own.
pub mod Delivery
use remote_adapter.Prelude.{
  ℕ, zero, suc, ◌+◌, ◌%◌, ◌^◌, List, [], ◌∷◌, ◌++◌, Bytes, length, bit_and, ◌==◌, if◌then◌else◌,
}
use remote_adapter.Prelude.Int.{ℤ, pos, to_word}
use remote_adapter.Protocol.Types.{Result, ok, err, Error, eof}
use remote_adapter.Subprocess.Frames.{
  Frame, tag_stdout, tag_stderr, tag_exit, write_chunk, write_exit, read_frame, exit_code,
}

-- What the proxy writes to its standard output and error, and its exit status.
pub record Outcome : Type 0 where
  pub out : Bytes
  pub err_out : Bytes
  pub status : ℕ

abbrev pub ended : ℕ → Outcome
ended n = record { out = []; err_out = []; status = n }

-- `int(code) & 0xff`: the low byte in two's complement.
abbrev pub exit_status : ℤ → ℕ
exit_status code = bit_and (to_word (2 ^ 64) code) 0xff

-- The end of the stream counts as success.
abbrev pub read_failed : Error → Outcome
read_failed eof = ended 0
read_failed _ = ended 127

abbrev pub on_frame : Frame → Outcome → Outcome
on_frame f later =
    if f.tag == tag_stdout
    then record later { out = f.body ++ later.out }
    else if f.tag == tag_stderr
    then record later { err_out = f.body ++ later.err_out }
    else if f.tag == tag_exit
    then ended (exit_status (exit_code f))
    else later

abbrev pub on_read : (Bytes → Outcome) → Result (Frame × Bytes) → Outcome
on_read rounds (err e) = read_failed e
on_read rounds (ok (f, rest)) = let later = rounds rest in on_frame f later

-- The loop of `cmdSpawnProxy` over the frames of the executor. Each round takes five bytes at least.
unfoldable pub proxy_loop : ℕ → Bytes → Outcome
proxy_loop zero s = ended 0
proxy_loop (suc fuel) s = on_read (proxy_loop fuel) (read_frame s)

unfoldable pub proxy : Bytes → Outcome
unfolding proxy_loop
proxy s = proxy_loop (length s + 1) s

-- `pump` on what the reads of a pipe yield: an empty read writes no chunk.
unfoldable pub pump : ℕ → List Bytes → List (ℕ × Bytes)
pump tag [] = []
pump tag ([] ∷ reads) = pump tag reads
pump tag ((c ∷ b) ∷ reads) = (tag, c ∷ b) ∷ pump tag reads

-- The chunks, one after the other, and the exit frame that follows them.
unfoldable pub executor_stream : List (ℕ × Bytes) → ℤ → Bytes
executor_stream [] code = write_exit code
executor_stream ((tag, b) ∷ chunks) code = write_chunk tag b ++ executor_stream chunks code
