-- ===== src/Executor/Stream.antt =====
-- internal/executor/executor.go: one stream of the executor. The stream is the bytes that it delivers
-- before its end, and it takes every byte that is written to it. Logging is left out.
pub mod Serving
pub mod Fuel
pub mod Cut
use remote_adapter.Prelude.{
  ℕ, zero, suc, ◌+◌, Option, none, some, List, [], ◌∷◌, ◌++◌, Bytes, length, ◌==◌, if◌then◌else◌,
}
use remote_adapter.Protocol.Types.{Result, ok, err, Request, Response}
use remote_adapter.Protocol.Requests.{read_request}
use remote_adapter.Protocol.Responses.{write_response}
use remote_adapter.Executor.Host.{Host}
use remote_adapter.Executor.Fs.{Service, new_service, serve, close_all}

pub data StreamKind : Type 0 where
  fs_stream exec_stream unknown_stream : StreamKind

-- The switch of `handle`, on the byte that the caller writes first; `none` closes the stream.
unfoldable pub stream_kind : Bytes → Option (StreamKind × Bytes)
stream_kind [] = none
stream_kind (c ∷ rest) =
    if c == b'F'
    then some (fs_stream, rest)
    else if c == b'X'
    then some (exec_stream, rest)
    else some (unknown_stream, rest)

module _ {h : Host} where
  -- A response that cannot be framed ends the loop.
  abbrev pub responded :
      (Service h → Bytes × Service h) → Result Bytes → Service h → Bytes × Service h
  responded rounds (err e) s = ([], s)
  responded rounds (ok out) s = let (outs, t) = rounds s in (out ++ outs, t)

  abbrev pub answered_request :
      (Bytes → Service h → Bytes × Service h)
      → Result (Request × Bytes)
      → Service h
      → Bytes × Service h
  answered_request rounds (err e) s = ([], s)
  answered_request rounds (ok (r, rest)) s =
      let (a, t) = serve r s in responded (rounds rest) (write_response r.op a) t

  -- The loop of `serveFS`: the bytes written, and the service behind them.
  unfoldable pub serve_loop : ℕ → Bytes → Service h → Bytes × Service h
  serve_loop zero input s = ([], s)
  serve_loop (suc fuel) input s = answered_request (serve_loop fuel) (read_request input) s

  -- Each request takes a byte at least, so one round more than there are bytes is enough. The handles
  -- left open are closed.
  unfoldable pub serve_fs : Bytes → h.World → Bytes × Service h
  unfolding serve_loop new_service close_all
  serve_fs input w =
      let (out, s) = serve_loop (length input + 1) input (new_service w) in (out, close_all s)
