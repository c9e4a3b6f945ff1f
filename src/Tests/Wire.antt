-- ===== src/Tests/Wire.antt =====
-- Runs of the codec and of the executor's loop.
use remote_adapter.Prelude.{◌≡◌, refl, true, [], ◌∷◌, ◌++◌, Bytes, codes, arith, equal}
use remote_adapter.Prelude.Int.{pos}
use remote_adapter.Protocol.Types.{
  op_code, op_open, op_close, op_stat, op_readdir, Request, Response, errno_response, blank_request,
  ok,
}
use remote_adapter.Protocol.Frame.{put_u32, put_u64, write_frame}
use remote_adapter.Protocol.Parser.{put_bytes}
use remote_adapter.Protocol.Requests.{write_request, read_request, request_fields}
use remote_adapter.Protocol.Requests.Shape.{sent, InRange, plain-InRange}
use remote_adapter.Protocol.Requests.RoundTrip.{read_request-write_request}
use remote_adapter.Protocol.Responses.{write_response, read_response, response_fields, put_entries}
use remote_adapter.Protocol.Responses.Shape.{answered, answer, pad}
use remote_adapter.Protocol.Responses.Shape as ResponseShape
use remote_adapter.Protocol.Responses.RoundTrip.{read_response-write_response}
use remote_adapter.Prelude.Table.{lookup, insert, delete}
use remote_adapter.Executor.Fs.{Service, serve, serve_open, open_with_mode, serve_close, file_mode}
use remote_adapter.Executor.Stream.{serve_loop}
use remote_adapter.Executor.Stream.Serving.{
  Wires, unsent, framed, Served, idle, answering, serve_loop-Served,
}
use remote_adapter.Adapter.Session.{Session, remote_rpc}
use remote_adapter.Adapter.Wire.{wire_link, remote_rpc-serve}
use remote_adapter.Tests.Stubs.{stub_host, seen}

abbrev stat_ab : Request
stat_ab = record (blank_request op_stat) { path = codes "ab"; flags = 9 }

abbrev stat_wire : Bytes
stat_wire = 0 ∷ 0 ∷ 0 ∷ 7 ∷ 1 ∷ 0 ∷ 0 ∷ 0 ∷ 2 ∷ 97 ∷ 98 ∷ []

stat_ab-InRange : InRange stat_ab
stat_ab-InRange = plain-InRange op_stat (codes "ab") 9 0 (omega arith) (omega arith)

-- The flags do not go with an `OpStat`.
read_request-write_request_example :
    read_request (stat_wire ++ (42 ∷ [])) ≡ ok (record stat_ab { flags = 0 }, 42 ∷ [])
unfolding write_request request_fields write_frame put_u32 put_bytes op_code sent
read_request-write_request_example =
    read_request-write_request stat_ab stat_wire (42 ∷ []) stat_ab-InRange refl

abbrev listing : Response
listing = record (errno_response (pos 0)) {
  names = codes "a" ∷ codes "b" ∷ [];
  types = 8 ∷ [];
  size = pos 5;
}

abbrev listing_wire : Bytes
listing_wire =
    0 ∷ 0 ∷ 0 ∷ 20 ∷ 0 ∷ 0 ∷ 0 ∷ 0 ∷ 0 ∷ 0 ∷ 0 ∷ 2 ∷ 0 ∷ 0 ∷ 0 ∷ 1 ∷ 97 ∷ 8 ∷ 0 ∷ 0 ∷ 0 ∷ 1 ∷ 98 ∷ 0
    ∷ []

listing-InRange : ResponseShape.InRange listing
listing-InRange = record {
  error = omega arith;
  mode = omega arith;
  size = omega arith;
  handle = omega arith;
  mtime = omega arith;
}

-- A missing type is sent as 0.
read_response-write_response_example :
    read_response op_readdir (listing_wire ++ (42 ∷ []))
    ≡ ok (record listing { types = 8 ∷ 0 ∷ []; size = pos 0 }, 42 ∷ [])
unfolding write_response response_fields put_entries write_frame put_u32 put_bytes answered answer
    pad
read_response-write_response_example =
    read_response-write_response op_readdir listing listing_wire (42 ∷ []) listing-InRange refl

abbrev old_open : Response
old_open = record (errno_response (pos 0)) {
  mode = 33188;
  size = pos 3;
  handle = 7;
  mtime = pos 17;
}

old_open-InRange : ResponseShape.InRange old_open
old_open-InRange = record {
  error = omega arith;
  mode = omega arith;
  size = omega arith;
  handle = omega arith;
  mtime = omega arith;
}

abbrev open_a : Request
open_a = record (blank_request op_open) { path = codes "a" }

abbrev close_one : Request
close_one = record (blank_request op_close) { handle = 1 }

abbrev open_wire : Bytes
open_wire = 0 ∷ 0 ∷ 0 ∷ 10 ∷ 2 ∷ 0 ∷ 0 ∷ 0 ∷ 0 ∷ 0 ∷ 0 ∷ 0 ∷ 1 ∷ 97 ∷ []

abbrev close_wire : Bytes
close_wire = 0 ∷ 0 ∷ 0 ∷ 9 ∷ 5 ∷ 0 ∷ 0 ∷ 0 ∷ 0 ∷ 0 ∷ 0 ∷ 0 ∷ 1 ∷ []

open_a-InRange : InRange open_a
open_a-InRange = plain-InRange op_open (codes "a") 0 0 (omega arith) (omega arith)

close_one-InRange : InRange close_one
close_one-InRange = plain-InRange op_close [] 0 1 (omega arith) (omega arith)

requests-Wires : Wires (open_a ∷ close_one ∷ []) (open_wire ++ (close_wire ++ []))
unfolding write_request request_fields write_frame put_u32 put_u64 put_bytes op_code
requests-Wires = framed open_a-InRange refl (framed close_one-InRange refl unsent)

abbrev at_start : Service stub_host
at_start = record { next = 1; files = []; world = 0 }

abbrev opened_answer : Response
opened_answer = record (errno_response (pos 0)) {
  mode = 33188;
  size = pos 3;
  handle = 1;
  mtime = pos 17;
}

abbrev open_out : Bytes
open_out = put_u32 32 ++ (put_u32 0 ++ (put_u32 33188 ++ (put_u64 3 ++ (put_u64 1 ++ put_u64 17))))

abbrev close_out : Bytes
close_out = put_u32 4 ++ put_u32 0

requests-Served :
    Served stub_host
      (open_a ∷ close_one ∷ [])
      at_start
      (open_out ++ (close_out ++ []))
      (record { next = 2; files = []; world = 3 })
unfolding serve serve_open open_with_mode serve_close lookup delete insert sent seen equal
    write_response response_fields write_frame put_u32 put_u64 file_mode
requests-Served = answering refl refl (answering refl refl idle)

-- The two requests on one stream.
requests_run :
    serve_loop 3 (open_wire ++ (close_wire ++ [])) at_start
    ≡ (open_out ++ (close_out ++ []), record { next = 2; files = []; world = 3 })
requests_run = serve_loop-Served 3 requests-Wires requests-Served (omega arith)

opened_answer-InRange : ResponseShape.InRange opened_answer
opened_answer-InRange = record {
  error = omega arith;
  mode = omega arith;
  size = omega arith;
  handle = omega arith;
  mtime = omega arith;
}

abbrev connected : Session stub_host (wire_link stub_host)
connected = record {
  local = at_start;
  handles = [];
  next = 1;
  connected = true;
  link = record { service = at_start; pending = [] };
}

remote_rpc-serve_example : remote_rpc open_a connected ≡ (
  opened_answer,
  record connected {
    link = record {
      service = record { next = 2; files = (1, codes "a") ∷ []; world = 2 };
      pending = [];
    };
  },
)
unfolding write_request request_fields write_frame put_u32 put_bytes op_code serve serve_open
    open_with_mode lookup delete insert sent seen equal write_response response_fields put_u64
    file_mode answered answer
remote_rpc-serve_example =
    remote_rpc-serve open_a connected {w = open_wire} {out = open_out} {a = opened_answer}
      {b = record { next = 2; files = (1, codes "a") ∷ []; world = 2 }} refl refl open_a-InRange
      refl refl opened_answer-InRange refl

-- The platform of the stub host, and its answer on the wire.
abbrev info_out : Bytes
info_out = put_u32 22 ++ (put_u32 0 ++ (put_bytes (codes "linux") ++ put_bytes (codes "amd64")))
