-- ===== src/Adapter/Session.antt =====
-- internal/adapter/adapter.go: the session of one interceptor connection.
pub mod Handles
pub mod Sides
pub mod Lifetime
pub mod Redial
pub mod Failures
use remote_adapter.Prelude.{
  ℕ, ◌+◌, ◌%◌, ◌^◌, Bool, true, false, Option, none, some, List, [], Bytes, if◌then◌else◌,
}
use remote_adapter.Prelude.Int.{neg, is_zero}
use remote_adapter.Prelude.Table.{lookup, insert, delete}
use remote_adapter.Protocol.Types.{
  Op, op_stat, op_open, op_pread, op_write_file, op_close, op_readdir, op_pwrite, op_create,
  op_unlink, op_mkdir, op_rename, op_setattr, op_server_info, op_other, Request, Response,
  errno_response, blank_request,
}
use remote_adapter.Routing.{Table, is_remote}
use remote_adapter.Executor.Host.{Host}
use remote_adapter.Executor.Fs.{Service, new_service, serve, close_all, eio, ebadf, einval}
use remote_adapter.Adapter.Link.{Link}

abbrev pub exdev : ℕ
exdev = 18

pub record HandleRef : Type 0 where
  pub remote : Bool
  pub real : ℕ

pub record Session (h : Host) (k : Link) : Type 0 where
  pub local : Service h
  pub handles : List (ℕ × HandleRef)
  pub next : ℕ
  -- Whether the executor stream has been dialed, and the link behind it.
  pub connected : Bool
  pub link : k.State

abbrev pub same_side : Bool → Bool → Bool
same_side true b = b
same_side false true = false
same_side false false = true

abbrev pub is_close : Op → Bool
is_close op_close = true
is_close _ = false

module _ {h : Host} {k : Link} where
  -- The session that `serveConn` starts with.
  unfoldable pub new_session : h.World → k.State → Session h k
  unfolding new_service
  new_session w l = record {
    local = new_service w;
    handles = [];
    next = 1;
    connected = false;
    link = l;
  }

  abbrev pub eio_response : Session h k → k.State → Response × Session h k
  eio_response s l = (errno_response (neg eio), record s { link = l })

  abbrev pub received : Session h k → Option Response × k.State → Response × Session h k
  received s (none, l) = eio_response s l
  received s (some a, l) = (a, record s { link = l })

  abbrev pub relayed : Request → Session h k → Bool × k.State → Response × Session h k
  relayed r s (false, l) = eio_response s l
  relayed r s (true, l) = received s (k.receive r.op l)

  -- Send the request and wait for the answer, on a stream that is there.
  abbrev pub relay : Request → Session h k → Response × Session h k
  relay r s = relayed r s (k.send r s.link)

  abbrev pub announced : Request → Session h k → Bool × k.State → Response × Session h k
  announced r s (false, l) = eio_response s (k.shut l)
  announced r s (true, l) = relay r (record s { connected = true; link = l })

  abbrev pub dialed : Request → Session h k → Bool × k.State → Response × Session h k
  dialed r s (false, l) = eio_response s l
  dialed r s (true, l) = announced r s (k.write_kind l)

  -- The stream is dialed by the first request that needs it, and kept from then on.
  unfoldable pub remote_rpc : Request → Session h k → Response × Session h k
  remote_rpc r s = if s.connected then relay r s else dialed r s (k.dial s.link)

  abbrev pub on_local : Session h k → Response × Service h → Response × Session h k
  on_local s (a, t) = (a, record s { local = t })

  unfoldable pub local_rpc : Request → Session h k → Response × Session h k
  local_rpc r s = on_local s (serve r s.local)

  abbrev pub on_side : Bool → Request → Session h k → Response × Session h k
  on_side true = remote_rpc
  on_side false = local_rpc

  -- `forwardByPath`.
  unfoldable pub forward_by_path : Table → Request → Session h k → Response × Session h k
  forward_by_path t r s = on_side (is_remote t r.path) r s

  unfoldable pub rename : Table → Request → Session h k → Response × Session h k
  unfolding forward_by_path
  rename t r s =
      if same_side (is_remote t r.path) (is_remote t r.path2)
      then forward_by_path t r s
      else (errno_response (neg exdev), s)

  -- A file that opened gets a handle of the session's own.
  abbrev pub wrapped : Bool → Response × Session h k → Response × Session h k
  wrapped side (a, s) =
      if is_zero a.error
      then (
        record a { handle = s.next },
        record s {
          handles = insert s.next (record { remote = side; real = a.handle }) s.handles;
          next = (s.next + 1) % 2 ^ 64;
        },
      )
      else (a, s)

  unfoldable pub open_path : Table → Request → Session h k → Response × Session h k
  open_path t r s = wrapped (is_remote t r.path) (on_side (is_remote t r.path) r s)

  abbrev pub by_ref : Request → Session h k → Option HandleRef → Response × Session h k
  by_ref r s none = (errno_response (neg ebadf), s)
  by_ref r s (some ref) = on_side ref.remote (record r { handle = ref.real }) s

  -- The reference goes with an `OpClose`, whatever the side then answers.
  unfoldable pub by_handle : Request → Session h k → Response × Session h k
  by_handle r s =
      by_ref r (if is_close r.op then record s { handles = delete r.handle s.handles } else s)
        (lookup r.handle s.handles)

  abbrev pub dispatch : Op → Table → Request → Session h k → Response × Session h k
  dispatch op_stat = forward_by_path
  dispatch op_readdir = forward_by_path
  dispatch op_write_file = forward_by_path
  dispatch op_unlink = forward_by_path
  dispatch op_mkdir = forward_by_path
  dispatch op_setattr = forward_by_path
  dispatch op_rename = rename
  dispatch op_open = open_path
  dispatch op_create = open_path
  dispatch op_pread = λ t. by_handle
  dispatch op_pwrite = λ t. by_handle
  dispatch op_close = λ t. by_handle
  dispatch op_server_info = λ t r s. (errno_response (neg einval), s)
  dispatch (op_other n) = λ t r s. (errno_response (neg einval), s)

  -- `session.handle`.
  unfoldable pub handle : Table → Request → Session h k → Response × Session h k
  handle t r s = dispatch r.op t r s

  -- `session.close`.
  unfoldable pub close : Session h k → Session h k
  unfolding close_all
  close s = record s {
    local = close_all s.local;
    connected = false;
    link = if s.connected then k.shut s.link else s.link;
  }
