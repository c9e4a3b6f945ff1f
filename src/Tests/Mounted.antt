-- ===== src/Tests/Mounted.antt =====
-- Runs through the mount, the adapter and the executor.
use remote_adapter.Prelude.{
  ◌≡◌, refl, true, false, none, some, [], ◌∷◌, ◌++◌, Bytes, codes, arith, length, take, equal,
  cut_prefix, join,
}
use remote_adapter.Prelude.Int.{pos}
use remote_adapter.Prelude.FilePath.{clean}
use remote_adapter.Protocol.Types.{
  op_stat, op_code, Request, Response, blank_request, errno_response,
}
use remote_adapter.Protocol.Frame.{put_u32, put_u64, write_frame}
use remote_adapter.Protocol.Parser.{put_bytes}
use remote_adapter.Protocol.Requests.{write_request, request_fields}
use remote_adapter.Protocol.Requests.Shape.{sent, plain-InRange}
use remote_adapter.Protocol.Responses.{write_response, response_fields}
use remote_adapter.Protocol.Responses.Shape.{answered, answer}
use remote_adapter.Protocol.Responses.Shape as ResponseShape
use remote_adapter.Routing.{Table, remote_allowlist, matches_any, is_remote}
use remote_adapter.Executor.Host.{Host, done}
use remote_adapter.Executor.Fs.{Service, serve, serve_stat, file_mode}
use remote_adapter.Adapter.Wire.{wire_link}
use remote_adapter.Fuse.Client.{Client, new_client, call}
use remote_adapter.Fuse.Mount.Fresh.{new_mount-write_read}
use remote_adapter.Fuse.Nodes.{good, open_file, read_file, write_file}
use remote_adapter.Fuse.Mount.{Peer, conn_link}
use remote_adapter.Fuse.Mount.Relay.{IsLive, call-serve}
use remote_adapter.Fuse.Mount.Opened.{Opens}
use remote_adapter.Tests.Stubs.{plain}

-- A host with one file, whose content is the world: a write replaces it.
abbrev memory_host : Host
memory_host = record {
  World = Bytes;
  File = Unit {0};
  o_create = 64;
  goos = codes "linux";
  goarch = codes "amd64";
  stat = λ p w. (done plain, w);
  open_file = λ p flags perm w. (done tt, w);
  file_stat = λ f w. (done plain, w);
  file_close = λ f w. (done tt, w);
  read_at = λ f n off w. ((take n w, none), w);
  write_at = λ f b off w. (done (length b), b);
  write_file = λ p b perm w. (done tt, b);
  read_dir = λ p w. (done [], w);
  unlink = λ p w. (done tt, w);
  rmdir = λ p w. (done tt, w);
  mkdir = λ p perm w. (done tt, w);
  rename = λ p q w. (done tt, w);
  chmod = λ p perm w. (done tt, w);
  truncate = λ p n w. (done tt, w);
  chtimes = λ p a m w. (done tt, w);
}

abbrev at_w : Table
at_w = record { mode = remote_allowlist; remote_prefixes = codes "/w" ∷ []; local_prefixes = [] }

abbrev idle_service : Service memory_host
idle_service = record { next = 5; files = []; world = [] }

abbrev peer : Peer memory_host (wire_link memory_host)
peer = record {
  session = record {
    local = idle_service;
    handles = [];
    next = 1;
    connected = true;
    link = record { service = idle_service; pending = [] };
  };
  pending = [];
}

abbrev mount : Client (conn_link memory_host (wire_link memory_host) at_w)
mount = record { connected = true; link = peer }

mount-IsLive : IsLive mount.connected mount.link
mount-IsLive = record { opened = refl; clear = refl; dialed = refl; drained = refl }

w_a_is_remote : is_remote at_w (codes "/w/a") ≡ true
unfolding is_remote matches_any clean join equal cut_prefix
w_a_is_remote = refl

opening : Opens memory_host (codes "/w/a") 2 [] tt []
unfolding file_mode
opening = record {
  opening = [];
  info = plain;
  opens = refl;
  shows = refl;
  mode = omega arith;
  size = omega arith;
  mtime = omega arith;
}

abbrev stat_a : Request
stat_a = record (blank_request op_stat) { path = codes "/w/a"; flags = 9 }

abbrev stat_wire : Bytes
stat_wire = 0 ∷ 0 ∷ 0 ∷ 9 ∷ 1 ∷ 0 ∷ 0 ∷ 0 ∷ 4 ∷ 47 ∷ 119 ∷ 47 ∷ 97 ∷ []

abbrev stat_answer : Response
stat_answer = record (errno_response (pos 0)) { mode = 33188; size = pos 3; mtime = pos 17 }

abbrev stat_out : Bytes
stat_out = put_u32 24 ++ (put_u32 0 ++ (put_u32 33188 ++ (put_u64 3 ++ put_u64 17)))

stat_answer-InRange : ResponseShape.InRange stat_answer
stat_answer-InRange = record {
  error = omega arith;
  mode = omega arith;
  size = omega arith;
  handle = omega arith;
  mtime = omega arith;
}

call-serve_example : call stat_a mount ≡ (stat_answer, mount)
unfolding write_request request_fields write_frame put_u32 put_u64 put_bytes op_code serve
    serve_stat sent write_response response_fields file_mode answered answer
call-serve_example =
    call-serve at_w stat_a mount {w = stat_wire} {out = stat_out} {a = stat_answer}
      {b = idle_service} mount-IsLive w_a_is_remote
      (plain-InRange op_stat (codes "/w/a") 9 0 (omega arith) (omega arith)) refl refl
      stat_answer-InRange refl

new_mount-write_read_example :
    let (gave, d) =
      open_file
        (codes "/w/a")
        2
        (new_client (conn_link memory_host (wire_link memory_host) at_w) peer) in
    let (wrote, e) = write_file (some 1) (codes "hi") (pos 0) d in
    (gave ≡ good (1, false))
    × (wrote ≡ good 2)
    × ((read_file (some 1) 8 (pos 0) e).0 ≡ good (codes "hi"))
new_mount-write_read_example =
    new_mount-write_read at_w (codes "/w/a") 2 8 (codes "hi") (pos 0) tt [] (codes "hi")
      (codes "hi") peer w_a_is_remote (omega arith) (omega arith) opening (omega arith)
      (omega arith) refl refl
