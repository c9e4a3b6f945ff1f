-- ===== src/Fuse/Mount/Opened.antt =====
-- A file that the mount opens on the executor.
use remote_adapter.Prelude.{
  ℕ, ◌+◌, ◌%◌, ◌^◌, ◌≤◌, ◌<◌, ◌≡◌, ◌∙◌, ap, true, [], Bytes, length, arith,
}
use remote_adapter.Prelude.Int.{Fits}
use remote_adapter.Prelude.Table.{insert, lookup-insert}
use remote_adapter.Protocol.Types.{op_open, Request, blank_request, Response, max_frame}
use remote_adapter.Protocol.Frame.{put_u32, put_u64}
use remote_adapter.Protocol.Frame.Laws.{write_frame_fits}
use remote_adapter.Protocol.Parser.{put_bytes}
use remote_adapter.Protocol.Requests.{write_request, request_fields}
use remote_adapter.Protocol.Requests.Shape.{sent, plain-InRange}
use remote_adapter.Protocol.Responses.{write_response, response_fields}
use remote_adapter.Protocol.Responses.Shape.{answered, answer}
use remote_adapter.Protocol.Responses.Relayed.{response_in, no_error}
use remote_adapter.Routing.{Table, is_remote}
use remote_adapter.Executor.Host.{Host, done, FileInfo}
use remote_adapter.Executor.Fs.{
  Service, serve, serve_open, open_with_mode, opened, register, file_mode, success,
}
use remote_adapter.Adapter.Session.{handle, open_path, on_side, wrapped}
use remote_adapter.Adapter.Wire.{wire_link, remote_rpc-serve}
use remote_adapter.Fuse.Client.{Client}
use remote_adapter.Fuse.Nodes.{good, open_file, replied, keeps_cache}
use remote_adapter.Fuse.Mount.{Peer, conn_link, call-handle}
use remote_adapter.Fuse.Mount.Relay.{IsLive, executor, with_session}
use remote_adapter.Fuse.Mount.Files.{IsOpen}

-- What the executor's host answers when it opens a file and looks at it, its numbers in range.
pub record Opens (h : Host) (path : Bytes) (flags : ℕ) (w : h.World) (f : h.File) (u : h.World)
    : Type 0 where
  pub opening : h.World
  pub info : FileInfo
  pub opens : h.open_file path flags 0o644 w ≡ (done f, opening)
  pub shows : h.file_stat f opening ≡ (done info, u)
  pub mode : file_mode info < 2 ^ 32
  pub size : Fits (2 ^ 63) info.size
  pub mtime : Fits (2 ^ 63) info.mtime

unfoldable pub open_request : Bytes → ℕ → Request
open_request path flags = record (blank_request op_open) { path = path; flags = flags }

unfoldable pub open_answer : FileInfo → ℕ → Response
open_answer fi n = record success {
  mode = file_mode fi;
  size = fi.size;
  handle = n;
  mtime = fi.mtime;
}

module _ {h : Host} where
  unfoldable pub with_file : Service h → h.File → h.World → Service h
  with_file s f u = record {
    next = (s.next + 1) % 2 ^ 64;
    files = insert s.next f s.files;
    world = u;
  }

  unfoldable pub opened_peer : Peer h (wire_link h) → h.File → h.World → Peer h (wire_link h)
  unfolding with_file
  opened_peer p f u = with_session (record p.session {
    handles =
        insert p.session.next (record { remote = true; real = (executor p).next })
          p.session.handles;
    next = (p.session.next + 1) % 2 ^ 64;
    link = record { service = with_file (executor p) f u; pending = [] };
  })

  open-executor :
      (path : Bytes) (flags : ℕ) (f : h.File) (u : h.World) (s : Service h)
      (o : Opens h path flags s.world f u)
      → serve (open_request path flags) s ≡ (open_answer o.info s.next, with_file s f u)
  unfolding serve serve_open open_with_mode open_request open_answer with_file
  open-executor path flags f u s o = ap (opened s) o.opens ∙ ap (register s f) o.shows

  pub opened-IsOpen :
      (p : Peer h (wire_link h)) (f : h.File) (u : h.World)
      → (executor p).next < 2 ^ 64
      → p.session.next < 2 ^ 64
      → IsOpen (opened_peer p f u) p.session.next f
  unfolding opened_peer with_file
  opened-IsOpen p f u room room' = record {
    real = (executor p).next;
    theirs = room;
    ours = room';
    there =
        lookup-insert p.session.next p.session.next
          (record { remote = true; real = (executor p).next }) p.session.handles
        ∙ ground arith;
    held = lookup-insert (executor p).next (executor p).next f (executor p).files ∙ ground arith;
  }

module _ {h : Host} (t : Table) where
  pub open-session :
      (path : Bytes) (flags : ℕ) (f : h.File) (u : h.World) (p : Peer h (wire_link h))
      → p.session.connected ≡ true
      → p.session.link.pending ≡ []
      → is_remote t path ≡ true
      → flags < 2 ^ 32
      → length path + 9 ≤ max_frame
      → (executor p).next < 2 ^ 64
      → (o : Opens h path flags (executor p).world f u)
      → handle t (open_request path flags) p.session
        ≡ (open_answer o.info p.session.next, (opened_peer p f u).session)
  unfolding handle open_path open_request open_answer opened_peer with_file sent write_request
      request_fields write_response response_fields put_u32 put_u64 put_bytes answered answer
  open-session path flags f u p there drained side range fits room o =
      ap (λ b. wrapped b (on_side b (open_request path flags) p.session)) side
      ∙ ap (wrapped true) (
          remote_rpc-serve (open_request path flags) p.session there drained
            (plain-InRange op_open path flags 0 range (omega arith))
            (write_frame_fits _ (omega arith)) (open-executor path flags f u (executor p) o)
            (response_in no_error o.mode o.size room o.mtime) (write_frame_fits _ (omega arith)))

  -- An open on a path that routes remote, on streams that are there: the mount gets a handle of the
  -- session, which stands for the executor's file.
  open_file-remote :
      (path : Bytes) (flags : ℕ) (f : h.File) (u : h.World)
      (c : Client (conn_link h (wire_link h) t))
      → IsLive c.connected c.link
      → is_remote t path ≡ true
      → flags < 2 ^ 32
      → length path + 9 ≤ max_frame
      → (executor c.link).next < 2 ^ 64
      → c.link.session.next < 2 ^ 64
      → Opens h path flags (executor c.link).world f u
      → open_file path flags c ≡ (
        good (c.link.session.next, keeps_cache flags),
        record c { link = opened_peer c.link f u },
      )
  unfolding open_file open_request open_answer opened_peer with_file sent write_request
      request_fields write_response response_fields put_u32 put_u64 put_bytes answered answer
  open_file-remote path flags f u c live side range fits room room' o =
      ap (replied (λ a. (a.handle, keeps_cache flags))) (
        call-handle t (open_request path flags) c live.opened live.clear
          (plain-InRange op_open path flags 0 range (omega arith))
          (write_frame_fits _ (omega arith))
          (open-session path flags f u c.link live.dialed live.drained side range fits room o)
          (response_in no_error o.mode o.size room' o.mtime) (write_frame_fits _ (omega arith)))
