-- ===== src/Tests/Failures.antt =====
-- Runs in which a stream fails.
use remote_adapter.Prelude.{
  ◌≡◌, refl, Bool, true, false, none, some, [], ◌∷◌, ◌++◌, Bytes, codes, arith, length, take, equal,
  cut_prefix, join, if◌then◌else◌,
}
use remote_adapter.Prelude.Int.{pos, neg}
use remote_adapter.Prelude.Table.{lookup, delete}
use remote_adapter.Prelude.FilePath.{clean}
use remote_adapter.Protocol.Types.{
  op_stat, op_close, op_code, Request, blank_request, errno_response,
}
use remote_adapter.Protocol.Frame.{put_u32, put_u64, write_frame}
use remote_adapter.Protocol.Parser.{put_bytes}
use remote_adapter.Protocol.Requests.{write_request, request_fields}
use remote_adapter.Protocol.Requests.Shape.{sent, plain-InRange}
use remote_adapter.Protocol.Requests.Cut.{IsPart}
use remote_adapter.Protocol.Responses.{write_response, response_fields}
use remote_adapter.Routing.{Table, remote_allowlist, matches_any, is_remote}
use remote_adapter.Executor.Host.{Host, done}
use remote_adapter.Executor.Fs.{Service, serve, serve_close, eio, file_mode, close_all, close_files}
use remote_adapter.Executor.Stream.{serve_loop}
use remote_adapter.Executor.Stream.Serving.{Wires, unsent, framed, Served, idle, answering}
use remote_adapter.Executor.Stream.Cut.{serve_loop-cut}
use remote_adapter.Adapter.Link.{Link}
use remote_adapter.Adapter.Wire.{wire_link}
use remote_adapter.Adapter.Session.{Session, remote_rpc, close}
use remote_adapter.Adapter.Session.Failures.{Outcome, remote_rpc-Outcome}
use remote_adapter.Fuse.Client.{Client, reset}
use remote_adapter.Fuse.Nodes.{good, open_file, write_file}
use remote_adapter.Fuse.Mount.{conn_link}
use remote_adapter.Fuse.Mount.Relay.{executor}
use remote_adapter.Fuse.Mount.Files.{IsOpen}
use remote_adapter.Fuse.Mount.Opened.{Opens}
use remote_adapter.Fuse.Mount.Stale.{write_file-stale}
use remote_adapter.Tests.Stubs.{stub_host, plain}

-- A host with two files, "/w/a" and another.
abbrev two_files : Host
two_files = record {
  World = Bytes × Bytes;
  File = Bool;
  o_create = 64;
  goos = codes "linux";
  goarch = codes "amd64";
  stat = λ p w. (done plain, w);
  open_file = λ p flags perm w. (done (equal p (codes "/w/a")), w);
  file_stat = λ f w. (done plain, w);
  file_close = λ f w. (done tt, w);
  read_at = λ f n off w. ((take n (if f then w.0 else w.1), none), w);
  write_at = λ f b off w. (done (length b), if f then (b, w.1) else (w.0, b));
  write_file = λ p b perm w. (done tt, w);
  read_dir = λ p w. (done [], w);
  unlink = λ p w. (done tt, w);
  rmdir = λ p w. (done tt, w);
  mkdir = λ p perm w. (done tt, w);
  rename = λ p q w. (done tt, w);
  chmod = λ p perm w. (done tt, w);
  truncate = λ p n w. (done tt, w);
  chtimes = λ p a m w. (done tt, w);
}

abbrev at_w : Table
at_w = record { mode = remote_allowlist; remote_prefixes = codes "/w" ∷ []; local_prefixes = [] }

abbrev fresh_service : Service two_files
fresh_service = record { next = 1; files = []; world = ([], []) }

abbrev holding_a : Client (conn_link two_files (wire_link two_files) at_w)
holding_a = record {
  connected = true;
  link = record {
    session = record {
      local = fresh_service;
      handles = (1, record { remote = true; real = 1 }) ∷ [];
      next = 2;
      connected = true;
      link = record {
        service = record { next = 2; files = (1, true) ∷ []; world = ([], []) };
        pending = [];
      };
    };
    pending = [];
  };
}

a-IsOpen : IsOpen holding_a.link 1 true
unfolding lookup
a-IsOpen = record { real = 1; theirs = omega arith; ours = omega arith; there = refl; held = refl }

w_b_is_remote : is_remote at_w (codes "/w/b") ≡ true
unfolding is_remote matches_any clean join equal cut_prefix
w_b_is_remote = refl

opening_b : Opens two_files (codes "/w/b") 1 ([], []) false ([], [])
unfolding file_mode equal
opening_b = record {
  opening = ([], []);
  info = plain;
  opens = refl;
  shows = refl;
  mode = omega arith;
  size = omega arith;
  mtime = omega arith;
}

-- What was to go to "/w/a" is in "/w/b".
write_file-stale_example :
    let (gave, d) = open_file (codes "/w/b") 1 (reset holding_a) in
    ((executor (write_file (some 1) (codes "hi") (pos 0) holding_a).1.link).world
      ≡ (codes "hi", []))
    × (gave ≡ good (1, false))
    × ((executor (write_file (some 1) (codes "hi") (pos 0) d).1.link).world ≡ ([], codes "hi"))
unfolding reset close close_all close_files
write_file-stale_example =
    write_file-stale at_w (codes "/w/b") 1 (codes "hi") (pos 0) true false ([], []) ([], codes "hi")
      (codes "hi", []) holding_a
      (record { opened = refl; clear = refl; dialed = refl; drained = refl }) a-IsOpen (omega arith)
      (omega arith) refl w_b_is_remote (omega arith) (omega arith) opening_b refl

abbrev stat_a : Request
stat_a = record (blank_request op_stat) { path = codes "a" }

abbrev close_one : Request
close_one = record (blank_request op_close) { handle = 1 }

-- The request lacks its last byte.
stat_a-IsPart : IsPart stat_a (0 ∷ 0 ∷ 0 ∷ 6 ∷ 1 ∷ 0 ∷ 0 ∷ 0 ∷ 1 ∷ [])
unfolding write_request request_fields write_frame put_u32 put_bytes op_code
stat_a-IsPart = record { missing = codes "a"; some_missing = λ e. cc e; parts = refl }

abbrev close_wire : Bytes
close_wire = 0 ∷ 0 ∷ 0 ∷ 9 ∷ 5 ∷ 0 ∷ 0 ∷ 0 ∷ 0 ∷ 0 ∷ 0 ∷ 0 ∷ 1 ∷ []

close-Wires : Wires (close_one ∷ []) (close_wire ++ [])
unfolding write_request request_fields write_frame put_u32 put_u64 op_code
close-Wires = framed (plain-InRange op_close [] 0 1 (omega arith) (omega arith)) refl unsent

abbrev at_start : Service stub_host
at_start = record { next = 2; files = (1, codes "b") ∷ []; world = 0 }

close-Served :
    Served stub_host
      (close_one ∷ [])
      at_start
      ((put_u32 4 ++ put_u32 0) ++ [])
      (record { next = 2; files = []; world = 1 })
unfolding serve serve_close lookup delete sent write_response response_fields write_frame put_u32
close-Served = answering refl refl idle

serve_loop-cut_example :
    serve_loop 2 ((close_wire ++ []) ++ (0 ∷ 0 ∷ 0 ∷ 6 ∷ 1 ∷ 0 ∷ 0 ∷ 0 ∷ 1 ∷ [])) at_start
    ≡ ((put_u32 4 ++ put_u32 0) ++ [], record { next = 2; files = []; world = 1 })
serve_loop-cut_example =
    serve_loop-cut 2 stat_a (0 ∷ 0 ∷ 0 ∷ 6 ∷ 1 ∷ 0 ∷ 0 ∷ 0 ∷ 1 ∷ []) close-Wires close-Served
      stat_a-IsPart (omega arith)

-- A link that cannot be dialed.
abbrev no_link : Link
no_link = record {
  State = Unit {0};
  dial = λ l. (false, l);
  write_kind = λ l. (true, l);
  shut = λ l. l;
  send = λ r l. (false, l);
  receive = λ o l. (none, l);
}

abbrev alone : Session stub_host no_link
alone = record { local = at_start; handles = []; next = 1; connected = false; link = tt }

remote_rpc-Outcome_example : Outcome stat_a alone (errno_response (neg eio), alone)
unfolding remote_rpc
remote_rpc-Outcome_example = remote_rpc-Outcome stat_a alone
