-- ===== src/Subprocess/Proxy/Delivery.antt =====
-- The proxy delivers both outputs of the child in order, and its exit code.
use remote_adapter.Prelude.{
  ℕ, zero, suc, ◌^◌, ◌≤◌, ◌<◌, ◌≡◌, refl, ap, List, [], ◌∷◌, ◌++◌, Bytes, length, length-append,
  All, arith, append-nil,
}
use remote_adapter.Prelude.Int.{ℤ, Fits}
use remote_adapter.Subprocess.Interleaving.{concat, Interleaved, none_left, from_left, from_right}
use remote_adapter.Subprocess.Frames.{tag_stdout, tag_stderr, write_chunk, write_exit}
use remote_adapter.Subprocess.Frames.RoundTrip.{read_frame-write_chunk, read_frame-write_exit}
use remote_adapter.Subprocess.Proxy.{
  exit_status, ended, on_frame, proxy_loop, proxy, pump, executor_stream,
}

-- A read fills at most the pump's buffer of 32 KiB.
abbrev pub Buffered : Bytes → Type 0
Buffered b = length b ≤ 32_768

abbrev Small : ℕ × Bytes → Type 0
Small c = length c.1 ≤ 32_768

abbrev bodies : List (ℕ × Bytes) → Bytes
bodies [] = []
bodies (c ∷ cs) = c.1 ++ bodies cs

-- The chunks of one pipe: their tag, and their sizes.
abbrev Tagged : ℕ → ℕ × Bytes → Type 0
Tagged tag c = (c.0 ≡ tag) × Small c

pump-Tagged :
    (tag : ℕ) (reads : List Bytes) → All Buffered reads → All (Tagged tag) (pump tag reads)
unfolding pump
pump-Tagged tag [] h = tt
pump-Tagged tag ([] ∷ reads) h = pump-Tagged tag reads h.1
pump-Tagged tag ((c ∷ b) ∷ reads) h = ((refl, h.0), pump-Tagged tag reads h.1)

bodies-pump : (tag : ℕ) (reads : List Bytes) → bodies (pump tag reads) ≡ concat reads
unfolding pump concat
bodies-pump tag [] = refl
bodies-pump tag ([] ∷ reads) = bodies-pump tag reads
bodies-pump tag ((c ∷ b) ∷ reads) = ap (λ bs. (c ∷ b) ++ bs) (bodies-pump tag reads)

proxy_loop-chunk :
    (fuel tag : ℕ) (b rest : Bytes)
    → length b ≤ 32_768
    → proxy_loop (suc fuel) (write_chunk tag b ++ rest)
      ≡ on_frame (record { tag = tag; body = b }) (proxy_loop fuel rest)
unfolding proxy_loop
proxy_loop-chunk fuel tag b rest small = rw (read_frame-write_chunk tag b rest (omega arith))

proxy_loop-exit :
    (fuel : ℕ) (code : ℤ)
    → Fits (2 ^ 31) code
    → proxy_loop (suc fuel) (write_exit code) ≡ ended (exit_status code)
unfolding proxy_loop
proxy_loop-exit fuel code f =
    let (frame, back, tagged, same) = read_frame-write_exit code [] f in
    rw (← append-nil (write_exit code)) (rw back (rw tagged (rw same)))

proxy_loop-Interleaved :
    (fuel : ℕ) {xs ys zs : List (ℕ × Bytes)} (code : ℤ)
    → Fits (2 ^ 31) code
    → All (Tagged tag_stdout) xs
    → All (Tagged tag_stderr) ys
    → Interleaved xs ys zs
    → length zs < fuel
    → proxy_loop fuel (executor_stream zs code)
      ≡ record { out = bodies xs; err_out = bodies ys; status = exit_status code }
unfolding executor_stream
proxy_loop-Interleaved zero code f p q m enough = absurd (omega arith)
proxy_loop-Interleaved (suc fuel) code f p q none_left enough = proxy_loop-exit fuel code f
proxy_loop-Interleaved (suc fuel) code f p q (from_left {c} {xs} {ys} {zs} m) enough =
    rw (proxy_loop-chunk fuel c.0 c.1 (executor_stream zs code) p.0.1)
      (rw (proxy_loop-Interleaved fuel code f p.1 q m (omega arith)) (rw p.0.0 refl))
proxy_loop-Interleaved (suc fuel) code f p q (from_right {c} {xs} {ys} {zs} m) enough =
    rw (proxy_loop-chunk fuel c.0 c.1 (executor_stream zs code) q.0.1)
      (rw (proxy_loop-Interleaved fuel code f p q.1 m (omega arith)) (rw q.0.0 refl))

executor_stream_long :
    (zs : List (ℕ × Bytes)) (code : ℤ) → length zs ≤ length (executor_stream zs code)
unfolding executor_stream write_chunk
executor_stream_long [] code = omega arith
executor_stream_long (c ∷ zs) code = omega (
  arith,
  executor_stream_long zs code,
  length-append (write_chunk c.0 c.1) (executor_stream zs code),
)

-- Whatever the order in which the pumps of the two pipes get to write their chunks, the proxy writes to
-- its own standard output and error exactly the bytes read off the child's, in order, and ends with the
-- low byte of the child's exit code. The reads fill at most the pump's buffer of 32 KiB.
pub proxy-executor_stream :
    (outs errs : List Bytes) (chunks : List (ℕ × Bytes)) (code : ℤ)
    → All Buffered outs
    → All Buffered errs
    → Fits (2 ^ 31) code
    → Interleaved (pump tag_stdout outs) (pump tag_stderr errs) chunks
    → proxy (executor_stream chunks code)
      ≡ record { out = concat outs; err_out = concat errs; status = exit_status code }
unfolding proxy
proxy-executor_stream outs errs chunks code p q f m = rw (← bodies-pump tag_stdout outs) (
    rw (← bodies-pump tag_stderr errs) (
      proxy_loop-Interleaved _ code f (pump-Tagged tag_stdout outs p)
        (pump-Tagged tag_stderr errs q) m (omega (arith, executor_stream_long chunks code))))
