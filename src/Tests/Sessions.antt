-- ===== src/Tests/Sessions.antt =====
-- Runs of a session, with the stubs on both sides.
use remote_adapter.Prelude.{
  ℕ, suc, some, ◌≡◌, refl, true, false, [], ◌∷◌, ◌++◌, codes, inl, arith, equal, cut_prefix, join,
  Bytes,
}
use remote_adapter.Prelude.Table.{insert, delete}
use remote_adapter.Prelude.FilePath.{clean}
use remote_adapter.Protocol.Types.{
  op_open, op_pread, op_rename, Request, blank_request, errno_response,
}
use remote_adapter.Routing.{Table, remote_allowlist, matches_any, is_remote}
use remote_adapter.Adapter.Session.{Session, remote_rpc, open_path, handle, on_side, local_rpc}
use remote_adapter.Adapter.Session.Sides.{handle_stays_local}
use remote_adapter.Adapter.Session.Handles.{IsValid}
use remote_adapter.Adapter.Session.Lifetime.{run, open_then_use}
use remote_adapter.Protocol.Types.{op_code}
use remote_adapter.Protocol.Frame.{put_u32, put_u64, write_frame}
use remote_adapter.Protocol.Parser.{put_bytes}
use remote_adapter.Protocol.Requests.{write_request, request_fields}
use remote_adapter.Protocol.Requests.Shape.{sent, InRange, plain-InRange}
use remote_adapter.Protocol.Responses.{write_response, response_fields}
use remote_adapter.Executor.Fs.{serve, serve_open, open_with_mode, file_mode}
use remote_adapter.Executor.Stream.Serving.{unsent, framed}
use remote_adapter.Adapter.Conn.{conn_loop}
use remote_adapter.Adapter.Conn.Answers.{no_more, handling, conn_loop-Handled}
use remote_adapter.Adapter.Session.Redial.{IsUnused, run-connected}
use remote_adapter.Adapter.Link.{Link}
use remote_adapter.Prelude.Int.{pos}
use remote_adapter.Tests.Stubs.{stub_host, stub_link, seen}

abbrev work : Table
work = record { mode = remote_allowlist; remote_prefixes = codes "/w" ∷ []; local_prefixes = [] }

abbrev fresh : Session stub_host stub_link
fresh = record {
  local = record { next = 1; files = []; world = 0 };
  handles = [];
  next = 1;
  connected = false;
  link = 0;
}

abbrev open_remote : Request
open_remote = record (blank_request op_open) { path = codes "/w/a" }

abbrev open_local : Request
open_local = record (blank_request op_open) { path = codes "/b" }

abbrev read_first : Request
read_first = record (blank_request op_pread) { handle = 1; len = 4 }

fresh-IsValid : IsValid fresh
fresh-IsValid = record { started = omega arith; below = tt }

remote_is_remote : is_remote work (codes "/w/a") ≡ true
unfolding is_remote matches_any clean join equal cut_prefix
remote_is_remote = refl

open_then_use_example :
    let u = run work (open_local ∷ []) (handle work open_remote fresh).1 in
    handle work read_first u
    ≡ on_side (is_remote work (codes "/w/a")) (record read_first { handle = 7 }) u
unfolding handle is_remote matches_any clean join equal cut_prefix open_path remote_rpc local_rpc
open_then_use_example =
    open_then_use work open_remote (open_local ∷ []) read_first fresh fresh-IsValid (omega arith)
      (inl refl) refl (inl (λ e. cc), tt) (inl refl) refl

abbrev holding : Session stub_host stub_link
holding = record fresh { next = 2; handles = (1, record { remote = true; real = 7 }) ∷ [] }

holding-IsValid : IsValid holding
holding-IsValid = record { started = omega arith; below = (omega arith, omega arith, tt) }

handle_stays_local_example :
    ((handle work open_local fresh).1.link ≡ 0)
    × ((handle work open_local fresh).1.connected ≡ false)
unfolding is_remote matches_any clean join equal cut_prefix
handle_stays_local_example = handle_stays_local work open_local fresh refl refl

abbrev move_out : Request
move_out = record (blank_request op_rename) { path = codes "/w/a"; path2 = codes "/b" }

abbrev open_b_wire : Bytes
open_b_wire = 0 ∷ 0 ∷ 0 ∷ 11 ∷ 2 ∷ 0 ∷ 0 ∷ 0 ∷ 0 ∷ 0 ∷ 0 ∷ 0 ∷ 2 ∷ 47 ∷ 98 ∷ []

abbrev open_b_out : Bytes
open_b_out =
    put_u32 32 ++ (put_u32 0 ++ (put_u32 33188 ++ (put_u64 3 ++ (put_u64 1 ++ put_u64 17))))

abbrev after_open : Session stub_host stub_link
after_open = record fresh {
  local = record { next = 2; files = (1, codes "/b") ∷ []; world = 2 };
  handles = (1, record { remote = false; real = 1 }) ∷ [];
  next = 2;
}

open_local-InRange : InRange open_local
open_local-InRange = plain-InRange op_open (codes "/b") 0 0 (omega arith) (omega arith)

conn_loop-Handled_example :
    conn_loop work 2 (open_b_wire ++ []) fresh ≡ some (open_b_out ++ [], after_open)
unfolding write_request request_fields write_frame put_u32 put_u64 put_bytes op_code handle sent
    is_remote matches_any clean join equal cut_prefix open_path local_rpc serve serve_open
    open_with_mode seen file_mode insert delete write_response response_fields
conn_loop-Handled_example =
    conn_loop-Handled work 2 (framed open_local-InRange refl unsent) (handling refl refl no_more)
      (omega arith)

-- A link that counts the streams that are dialed.
abbrev counting_link : Link
counting_link = record {
  State = ℕ;
  dial = λ l. (true, suc l);
  write_kind = λ l. (true, l);
  shut = λ l. l;
  send = λ r l. (true, l);
  receive = λ o l. (some (record (errno_response (pos 0)) { handle = 7 }), l);
}

counting_link-IsUnused : IsUnused counting_link (λ l. l)
counting_link-IsUnused = record { sends = λ r l. refl; receives = λ o l. refl }

abbrev fresh_counted : Session stub_host counting_link
fresh_counted = record {
  local = record { next = 1; files = []; world = 0 };
  handles = [];
  next = 1;
  connected = false;
  link = 0;
}

run-connected_example :
    let s = run work (open_remote ∷ read_first ∷ []) (record fresh_counted { connected = true }) in
    (s.connected ≡ true) × (s.link ≡ 0)
run-connected_example =
    run-connected (λ l. l) counting_link-IsUnused 0 work (open_remote ∷ read_first ∷ [])
      (record fresh_counted { connected = true }) refl refl
