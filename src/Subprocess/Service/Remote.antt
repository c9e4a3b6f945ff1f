-- ===== src/Subprocess/Service/Remote.antt =====
-- A subprocess that is routed runs on the executor as if it ran here.
use remote_adapter.Prelude.{
  ℕ, ◌%◌, ◌^◌, ◌≤◌, ◌<◌, ◌≡◌, ◌∙◌, refl, ap, true, false, some, List, ◌∷◌, ◌++◌, Bytes, length, map,
  All, arith, le→ltb, if◌then◌else◌, append_assoc,
}
use remote_adapter.Prelude.Int.{ℤ, pos, Fits, of_word-to_word}
use remote_adapter.Prelude.FilePath.{is_empty}
use remote_adapter.Protocol.Types.{Result, ok}
use remote_adapter.Protocol.Frame.{put_u32}
use remote_adapter.Protocol.Frame.Laws.{big_endian-put_u32, read_full-append, length-put_u32}
use remote_adapter.Executor.Stream.{stream_kind}
use remote_adapter.Subprocess.Interleaving.{Interleaved, concat}
use remote_adapter.Subprocess.Frames.{
  Json, SpawnRequest, write_spawn_request, read_spawn_request, tag_stdout, tag_stderr, write_exit,
}
use remote_adapter.Subprocess.Proxy.{exit_status, ended, proxy, pump, executor_stream}
use remote_adapter.Subprocess.Proxy.Delivery.{Buffered, proxy-executor_stream}
use remote_adapter.Subprocess.Child.{resolve_bin_path, child_env, Waited, exit_code}
use remote_adapter.Subprocess.Control.{signalled, stdin_pump, control_stream, control}
use remote_adapter.Subprocess.Control.Delivery.{control-control_stream}
use remote_adapter.Subprocess.Service.{
  ExecHost, exec_command, rg_dir, finished, serve_request, serve_exec, executor_end, bridge,
  ProxyHost, request_of, converse, spawn_proxy,
}

-- 16 MiB, the most that `ReadSpawnRequest` takes.
abbrev pub max_header : ℕ
max_header = 16_777_216

header-eq :
    (body h : Bytes)
    → length body < 2 ^ 32
    → ◌≡◌ {A = Result Bytes} (ok (put_u32 (length body % 2 ^ 32) ++ body)) (ok h)
    → h ≡ put_u32 (length body) ++ body
header-eq body h lt e = same e ∙ ap (λ n. put_u32 n ++ body) counted
  where
    counted : length body % 2 ^ 32 ≡ length body
    counted = omega arith

    same : {a b : Bytes} → ◌≡◌ {A = Result Bytes} (ok a) (ok b) → b ≡ a
    same e = cc

-- The header of a spawn that `WriteSpawnRequest` writes is read back as the request, and what follows it
-- is left; where the JSON of the request reads back as the request, and has at most 16 MiB.
pub read_spawn_request-write_spawn_request :
    (j : Json) (r : SpawnRequest) (body header rest : Bytes)
    → j.marshal r ≡ ok body
    → j.unmarshal body ≡ some r
    → length body ≤ max_header
    → write_spawn_request j r ≡ ok header
    → read_spawn_request j (header ++ rest) ≡ ok (r, rest)
unfolding write_spawn_request read_spawn_request
read_spawn_request-write_spawn_request j r body header rest m u le w =
    rw (header-eq body header (omega arith) (rw m at w)) (
      rw append_assoc (
        rw (read_full-append 4 (put_u32 (length body)) (body ++ rest) (length-put_u32 _)) (
          rw (big_endian-put_u32 (length body) (omega arith)) (
            rw (le→ltb max_header (length body) le)
              (rw (read_full-append (length body) body rest refl) (rw u))))))

executor_end-exec :
    (j : Json) (h : ExecHost) (s : Bytes) → executor_end j h (b'X' ∷ s) ≡ serve_exec j h s
unfolding executor_end stream_kind
executor_end-exec j h s = refl

-- The header is there wherever the JSON is.
header-exists :
    (j : Json) (r : SpawnRequest) {body : Bytes}
    → j.marshal r ≡ ok body
    → write_spawn_request j r ≡ ok (put_u32 (length body % 2 ^ 32) ++ body)
unfolding write_spawn_request
header-exists j r m = rw m

spawn_proxy-connected :
    (j : Json) (p : ProxyHost) (h : ExecHost) (path arg0 : Bytes) (argv : List Bytes) {body : Bytes}
    → is_empty p.sock ≡ false
    → p.dial p.sock ≡ some (bridge (some (executor_end j h)))
    → j.marshal (request_of p path (arg0 ∷ argv)) ≡ ok body
    → p.takes (b'X' ∷ (put_u32 (length body % 2 ^ 32) ++ body)) ≡ true
    → spawn_proxy j p (path ∷ arg0 ∷ argv)
      ≡ proxy (serve_exec j h ((put_u32 (length body % 2 ^ 32) ++ body) ++ control_stream p.events))
unfolding spawn_proxy bridge
spawn_proxy-connected j p h path arg0 argv {body} sock dial m takes = rw sock (
    rw dial (
      ap (λ w. converse p w (bridge (some (executor_end j h))))
        (header-exists j (request_of p path (arg0 ∷ argv)) m)
      ∙ ap
          (λ b.
            if b
            then proxy (
                bridge (some (executor_end j h))
                  (b'X' ∷ ((put_u32 (length body % 2 ^ 32) ++ body) ++ control_stream p.events)))
            else ended 127)
          takes
      ∙ ap proxy (executor_end-exec j h _)))

serve_exec-started :
    (j : Json) (h : ExecHost) (r : SpawnRequest) (body header rest arg0 : Bytes) (argv : List Bytes)
    → r.argv ≡ arg0 ∷ argv
    → j.marshal r ≡ ok body
    → j.unmarshal body ≡ some r
    → length body ≤ max_header
    → write_spawn_request j r ≡ ok header
    → serve_exec j h (header ++ rest) ≡ finished (h.start (exec_command h r) (control rest))
unfolding serve_exec
serve_exec-started j h r body header rest arg0 argv a m u le w =
    ap (serve_request h) (read_spawn_request-write_spawn_request j r body header rest m u le w)
    ∙ ap
        (λ x.
          if is_empty x
          then write_exit (pos 127)
          else finished (h.start (exec_command h r) (control rest)))
        a

-- A subprocess that is routed runs on the executor as it would here: the child is started with the
-- arguments and in the directory of the proxy's process, with its environment as the executor cleans it and
-- the binary that the executor finds; it is given the proxy's standard input and signals, and the proxy
-- writes the child's outputs and ends with the low byte of its exit code, in whatever order the goroutines
-- on either side get to write. It holds where the proxy reaches the executor by way of the
-- adapter's bridge, the JSON of the request reads back and has at most 16 MiB, the stream takes the
-- request's header, the child starts, and the numbers and the reads fit.
pub spawn_proxy-serve_exec :
    (j : Json) (p : ProxyHost) (h : ExecHost) (path arg0 : Bytes) (argv : List Bytes) (body : Bytes)
    (ns : List ℤ) (reads outs errs : List Bytes) (chunks : List (ℕ × Bytes)) (waited : Waited)
    → is_empty p.sock ≡ false
    → p.dial p.sock ≡ some (bridge (some (executor_end j h)))
    → j.marshal (request_of p path (arg0 ∷ argv)) ≡ ok body
    → j.unmarshal body ≡ some (request_of p path (arg0 ∷ argv))
    → length body ≤ max_header
    → p.takes (b'X' ∷ (put_u32 (length body) ++ body)) ≡ true
    → All (Fits (2 ^ 31)) ns
    → All Buffered reads
    → Interleaved (map signalled ns) (stdin_pump reads) p.events
    → h.start
        (record {
          path = resolve_bin_path h.lookups path (arg0 ∷ argv) h.embedded_rg;
          argv = arg0 ∷ argv;
          dir = p.cwd;
          env = child_env h.own_env p.env (rg_dir h.embedded_rg);
        })
        (record { input = concat reads; open_input = false; signals = ns })
      ≡ some (chunks, waited)
    → All Buffered outs
    → All Buffered errs
    → Interleaved (pump tag_stdout outs) (pump tag_stderr errs) chunks
    → Fits (2 ^ 31) (exit_code waited)
    → spawn_proxy j p (path ∷ arg0 ∷ argv)
      ≡ record { out = concat outs; err_out = concat errs; status = exit_status (exit_code waited) }
unfolding exec_command
spawn_proxy-serve_exec j p h path arg0 argv body ns reads outs errs chunks waited sock dial m u le
      takes f q sends starts qo qe writes fits =
    spawn_proxy-connected j p h path arg0 argv sock dial m
      (ap (λ n. p.takes (b'X' ∷ (put_u32 n ++ body))) counted ∙ takes)
    ∙ ap proxy (
        serve_exec-started j h r body _ (control_stream p.events) arg0 argv refl m u le
          (header-exists j r m)
        ∙ ap (λ g. finished (h.start (exec_command h r) g))
            (control-control_stream ns reads p.events f q sends)
        ∙ ap finished starts
        ∙ ap (executor_stream chunks)
            (of_word-to_word 4_294_967_296 2_147_483_648 (exit_code waited) refl fits))
    ∙ proxy-executor_stream outs errs chunks (exit_code waited) qo qe fits writes
  where
    r : SpawnRequest
    r = request_of p path (arg0 ∷ argv)

    counted : length body % 2 ^ 32 ≡ length body
    counted = omega arith
