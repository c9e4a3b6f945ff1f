-- ===== src/Subprocess/Service.antt =====
-- `serveExec` of internal/executor/exec.go, `cmdSpawnProxy` of cmd/rca/spawnproxy.go around its loops,
-- and internal/adapter/execbridge.go between them.
-- A stream is all the bytes that go each way. The proxy looks at the errors of its first two writes, and drops
-- those of its later ones, which are taken to succeed.
pub mod Remote
use remote_adapter.Prelude.{ℕ, Bool, Option, none, some, List, [], ◌∷◌, ◌++◌, Bytes, if◌then◌else◌}
use remote_adapter.Prelude.Int.{ℤ, pos, to_int32}
use remote_adapter.Prelude.FilePath.{is_empty, dir_name}
use remote_adapter.Protocol.Types.{Result, ok, err}
use remote_adapter.Executor.Stream.{StreamKind, fs_stream, exec_stream, unknown_stream, stream_kind}
use remote_adapter.Subprocess.Frames.{
  Json, SpawnRequest, write_spawn_request, read_spawn_request, write_exit,
}
use remote_adapter.Subprocess.Proxy.{Outcome, ended, proxy, executor_stream}
use remote_adapter.Subprocess.Child.{Lookups, resolve_bin_path, child_env, Waited, exit_code}
use remote_adapter.Subprocess.Control.{Event, control_stream, Given, control}

-- The *exec.Cmd that is started.
pub record ExecCommand : Type 0 where
  pub path : Bytes
  pub argv : List Bytes
  pub dir : Bytes
  pub env : List Bytes

-- The executor's host. `start` is the operating system's: the chunks that the pumps of a child's two
-- pipes write, in order, and what waiting for it gives, for what it is given; `none` where the pipes or
-- the process cannot be had.
pub record ExecHost : Type 0 where
  pub lookups : Lookups
  pub own_env : List Bytes
  pub embedded_rg : Bytes
  pub start : ExecCommand → Given → Option (List (ℕ × Bytes) × Waited)

abbrev pub rg_dir : Bytes → Bytes
rg_dir [] = []
rg_dir (c ∷ p) = dir_name (c ∷ p)

unfoldable pub exec_command : ExecHost → SpawnRequest → ExecCommand
exec_command h r = record {
  path = resolve_bin_path h.lookups r.path r.argv h.embedded_rg;
  argv = r.argv;
  dir = r.cwd;
  env = child_env h.own_env r.env (rg_dir h.embedded_rg);
}

abbrev pub finished : Option (List (ℕ × Bytes) × Waited) → Bytes
finished none = write_exit (pos 127)
finished (some (chunks, waited)) = executor_stream chunks (to_int32 (exit_code waited))

abbrev pub serve_request : ExecHost → Result (SpawnRequest × Bytes) → Bytes
serve_request h (err e) = []
serve_request h (ok (r, rest)) =
    if is_empty r.argv
    then write_exit (pos 127)
    else finished (h.start (exec_command h r) (control rest))

-- `serveExec`: the bytes that it writes.
unfoldable pub serve_exec : Json → ExecHost → Bytes → Bytes
serve_exec j h input = serve_request h (read_spawn_request j input)

abbrev pub on_kind : Json → ExecHost → Option (StreamKind × Bytes) → Bytes
on_kind j h (some (exec_stream, rest)) = serve_exec j h rest
on_kind j h _ = []

-- An exec stream at the executor, from its first byte.
unfoldable pub executor_end : Json → ExecHost → Bytes → Bytes
executor_end j h input = on_kind j h (stream_kind input)

-- `handle` and `splice` of internal/adapter/execbridge.go: what goes back to the proxy for all that it
-- sends, over a stream to the executor, or with `none` where that cannot be dialed.
unfoldable pub bridge : Option (Bytes → Bytes) → Bytes → Bytes
bridge none input = []
bridge (some far) input = far input

-- What `cmdSpawnProxy` has of its process: RCC_EXECUTOR_SOCK, the directory and the environment, the
-- order in which its goroutines write, and a dialer that gives the far end of the stream. `takes` is whether
-- the stream takes the kind byte and the header, or a write of them fails.
pub record ProxyHost : Type 0 where
  pub sock : Bytes
  pub cwd : Bytes
  pub env : List Bytes
  pub events : List Event
  pub dial : Bytes → Option (Bytes → Bytes)
  pub takes : Bytes → Bool

abbrev pub request_of : ProxyHost → Bytes → List Bytes → SpawnRequest
request_of p path argv = record { path = path; argv = argv; cwd = p.cwd; env = p.env }

abbrev pub converse : ProxyHost → Result Bytes → (Bytes → Bytes) → Outcome
converse p (err e) far = ended 127
converse p (ok header) far =
    if p.takes (b'X' ∷ header)
    then proxy (far (b'X' ∷ (header ++ control_stream p.events)))
    else ended 127

abbrev pub dialed : Json → ProxyHost → SpawnRequest → Option (Bytes → Bytes) → Outcome
dialed j p r none = ended 127
dialed j p r (some far) = converse p (write_spawn_request j r) far

abbrev pub connect : Json → ProxyHost → SpawnRequest → Outcome
connect j p r = if is_empty p.sock then ended 127 else dialed j p r (p.dial p.sock)

-- `cmdSpawnProxy`.
unfoldable pub spawn_proxy : Json → ProxyHost → List Bytes → Outcome
spawn_proxy j p [] = ended 127
spawn_proxy j p (path ∷ []) = ended 127
spawn_proxy j p (path ∷ arg0 ∷ argv) = connect j p (request_of p path (arg0 ∷ argv))
