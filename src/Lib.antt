-- ===== src/Lib.antt =====
-- remote-adapter: run an agent locally and its tool calls on another machine. The native interceptor (or,
-- on Linux, a FUSE mount) hands the agent's file operations to the adapter, which serves each of them
-- locally or relays it to an executor; subprocesses are replaced by a proxy that has the executor run them.
--
-- Which file models what (paths from the repository's root):
--   Protocol     internal/protocol/protocol.go. Types: operations, `Request`, `Response`. Frame: words and
--                `writeFrame`, `readFrame`. Parser: `parser` with its sticky failure. Requests and
--                Responses: `WriteRequest`, `ReadRequest`, `WriteResponse`, `ReadResponse`.
--   Routing      internal/routing/routing.go: `New`, `IsRemote`, `matchesAny`.
--   Executor     Host: the operating system as a parameter. Fs: internal/executor/fs.go, one function for
--                each operation of `FSService` and `Handle` as `serve`. Stream: internal/executor/executor.go.
--                Serve: `Serve` of that file with the streams side by side.
--   Adapter      internal/adapter/adapter.go. Link: the executor-facing transport as a parameter. Session:
--                `session` with `handle`, `rename`, `open`, `byHandle`, `remoteRPC`. Conn: `serveConn`.
--                Serve: `Serve` with the connections side by side.
--                ServerInfo: `QueryServerInfo`. Wire: a session and the executor's loop joined by a stream.
--                Launch: `BuildCommand` and `PrepareMacOSCopy` of internal/adapter/launch.go.
--   Subprocess   Frames: internal/execproto/execproto.go. Proxy: the frame loop of cmd/rca/spawnproxy.go and
--                the pumps of internal/executor/exec.go. Child: the binary, the environment and the exit
--                code of a child, of internal/executor/exec.go. Control: the signals and the standard input
--                that go from the one to the other. Service: `serveExec` and `cmdSpawnProxy` as a whole, and
--                the two joined by internal/adapter/execbridge.go. Interleaving: the orders in which goroutines write.
--   Fuse         internal/linuxfuse/fs_linux.go: the client, the attributes and the node operations.
--                Mount: the client joined to the adapter and, through it, to the executor.
--   Cli          RunArgs: `parseRunArgs` of cmd/rca/run.go. Profile: cmd/rca/profile.go. Embedded:
--                `extractEmbeddedNative` of cmd/rca/embedded.go. Run: `cmdRun` of cmd/rca/run.go, with
--                `wrapMountNamespace` of cmd/rca/run_fuse_linux.go. Namespace: cmd/rca/nsrun_linux.go.
--                Main: `dispatch` of cmd/rca/main.go. Serve: `cmdServe` of cmd/rca/serve.go.
--                Relay: cmd/rca/relay.go. Fuse: cmd/rca/fuse_linux.go.
--   Pairing      Code: `Encode` and `Decode` of internal/paircode/paircode.go. Uvarint, Base64 and StdBase64:
--                the parts of encoding/binary and encoding/base64 that are used. Printed: cmd/rca/pairing.go.
--   Transport    the listener of internal/transport/libp2p.go, as steps of its goroutines. Libp2p: the rest
--                of that file, and `ListenUnix` of internal/transport/unixsocket.go. Refresh: `refreshLoop` of
--                internal/transport/relay_client.go, over a clock in nanoseconds whose timers fire on time.
--   Prelude      Go strings as lists of bytes, path/filepath, maps as association lists, signed integers.
--   Tests        runs at concrete inputs, over the host and the link of Tests.Stubs.
--
-- State is passed explicitly: an operation takes the state of its component and returns an answer and the
-- next state. A byte is a number, and a word of w bits is a number that is taken modulo 2 ^ w where the
-- code stores it; handle counters wrap at 2 ^ 64, and the theorems on handles ask that they do not get
-- there. A writer is the bytes that it is given, a reader the bytes that it yields before its end. The
-- mutex of a session orders the operations of one connection, so they are a sequence here.
--
-- The mount joins the parts by links: a `Link` is what a client asks of a transport, `wire_link` one whose
-- streams end in the executor's loop, and `conn_link` one whose streams end in the adapter's.
--
-- `serve_loop`, `conn_loop`, `proxy_loop` and `control_loop` run on fuel: a round consumes at least one byte of
-- the input, and `serve_fs`, `serve_conn`, `proxy` and `control` give one round more than there are bytes.
-- `conn_loop` is `none` where it runs out of it.
--
-- Not modelled: the transport over a pipe (internal/transport/stdio.go, which only calls yamux), libp2p, go-fuse
-- with its inode tree, what a process does and how a signal gets to it, and the native interceptors in C.
-- Logging is left
-- out throughout. JSON, libp2p, package flag, the operating system and the transport are parameters; what a
-- theorem asks of one of them is among its hypotheses.
pub mod Prelude
pub mod Protocol
pub mod Routing
pub mod Executor
pub mod Adapter
pub mod Subprocess
pub mod Fuse
pub mod Cli
pub mod Pairing
pub mod Transport
pub mod Tests
