-- ===== src/Fuse/Mount/Fresh.antt =====
-- The first file that a mount opens on the executor: the two streams are dialed on the way.
use remote_adapter.Prelude.{
  ℕ, ◌+◌, ◌%◌, ◌^◌, ◌≤◌, ◌<◌, ◌≡◌, ◌∙◌, refl, ap, sym, true, none, some, [], Bytes, length, arith,
}
use remote_adapter.Prelude.Int.{ℤ, Fits}
use remote_adapter.Protocol.Types.{op_open, max_frame}
use remote_adapter.Protocol.Frame.{put_u32, put_u64}
use remote_adapter.Protocol.Frame.Laws.{write_frame_fits}
use remote_adapter.Protocol.Parser.{put_bytes}
use remote_adapter.Protocol.Requests.{write_request, request_fields}
use remote_adapter.Protocol.Requests.Shape.{sent, plain-InRange}
use remote_adapter.Protocol.Responses.{write_response, response_fields}
use remote_adapter.Protocol.Responses.Shape.{answered, answer}
use remote_adapter.Protocol.Responses.Relayed.{response_in, no_error}
use remote_adapter.Routing.{Table, is_remote}
use remote_adapter.Executor.Host.{Host, done}
use remote_adapter.Executor.Fs.{new_service}
use remote_adapter.Adapter.Session.{new_session, handle, open_path, on_side, wrapped, remote_rpc}
use remote_adapter.Adapter.Wire.{wire_link}
use remote_adapter.Fuse.Client.{new_client, call}
use remote_adapter.Fuse.Nodes.{good, open_file, read_file, write_file, replied, keeps_cache}
use remote_adapter.Fuse.Mount.{Peer, conn_link, call-handle}
use remote_adapter.Fuse.Mount.Relay.{executor, with_session}
use remote_adapter.Fuse.Mount.Files.{read_file-write_file}
use remote_adapter.Fuse.Mount.Opened.{
  Opens, open_request, open_answer, with_file, opened_peer, open-session, opened-IsOpen,
}

module _ {h : Host} where
  -- The connection that is dialed, and the same once its session has dialed the executor.
  fresh_peer : Peer h (wire_link h) → Peer h (wire_link h)
  unfolding new_session
  fresh_peer p = with_session (new_session p.session.local.world p.session.link)

  unfoldable pub ready_peer : Peer h (wire_link h) → Peer h (wire_link h)
  unfolding new_session new_service
  ready_peer p = with_session (record (new_session p.session.local.world p.session.link) {
    connected = true;
    link = record { service = new_service p.session.link.service.world; pending = [] };
  })

module _ {h : Host} (t : Table) where
  open-dials :
      (path : Bytes) (flags : ℕ) (p : Peer h (wire_link h))
      → is_remote t path ≡ true
      → handle t (open_request path flags) (fresh_peer p).session
        ≡ handle t (open_request path flags) (ready_peer p).session
  unfolding handle open_path open_request fresh_peer ready_peer remote_rpc new_session new_service
  open-dials path flags p side =
      ap (λ b. wrapped b (on_side b (open_request path flags) (fresh_peer p).session)) side
      ∙ sym (ap (λ b. wrapped b (on_side b (open_request path flags) (ready_peer p).session)) side)

  pub open_file-first :
      (path : Bytes) (flags : ℕ) (f : h.File) (u : h.World) (p : Peer h (wire_link h))
      → is_remote t path ≡ true
      → flags < 2 ^ 32
      → length path + 9 ≤ max_frame
      → Opens h path flags (executor p).world f u
      → open_file path flags (new_client (conn_link h (wire_link h) t) p) ≡ (
        good (1, keeps_cache flags),
        record { connected = true; link = opened_peer (ready_peer p) f u },
      )
  unfolding open_file open_request open_answer opened_peer with_file sent write_request
      request_fields write_response response_fields put_u32 put_u64 put_bytes answered answer
      new_client call fresh_peer ready_peer new_session new_service
  open_file-first path flags f u p side range fits o =
      ap (replied (λ a. (a.handle, keeps_cache flags))) (
        call-handle t (open_request path flags) (record { connected = true; link = fresh_peer p })
          refl refl (plain-InRange op_open path flags 0 range (omega arith))
          (write_frame_fits _ (omega arith))
          (open-dials path flags p side
            ∙ open-session t path flags f u (ready_peer p) refl refl side range fits (omega arith)
                o)
          (response_in no_error o.mode o.size (omega arith) o.mtime)
          (write_frame_fits _ (omega arith)))

  -- A program that opens a file under a new mount, on a path that routes remote, writes to it and reads it
  -- back, gets its own bytes: the open dials the adapter and, through it, the executor, and gives the
  -- handle 1, the write reports every byte, and the read returns them, where the executor's host opens
  -- the file, takes the bytes and reads them back. The flags, the offset and the file's numbers are in
  -- the range of their types, and the path and the bytes fit a frame.
  pub new_mount-write_read :
      (path : Bytes) (flags size : ℕ) (body : Bytes) (off : ℤ) (f : h.File) (u v w : h.World)
      (p : Peer h (wire_link h))
      → is_remote t path ≡ true
      → flags < 2 ^ 32
      → length path + 9 ≤ max_frame
      → Opens h path flags (executor p).world f u
      → Fits (2 ^ 63) off
      → length body + 21 ≤ max_frame
      → h.write_at f body off u ≡ (done (length body), v)
      → h.read_at f (size % 2 ^ 32) off v ≡ ((body, none), w)
      → let (gave, d) = open_file path flags (new_client (conn_link h (wire_link h) t) p) in
        let (wrote, e) = write_file (some 1) body off d in
        (gave ≡ good (1, keeps_cache flags))
        × (wrote ≡ good (length body))
        × ((read_file (some 1) size off e).0 ≡ good body)
  unfolding opened_peer with_file ready_peer new_session new_service
  new_mount-write_read path flags size body off f u v w p side range fits o range' fits' e g =
      let opened = open_file-first path flags f u p side range fits o in
      let through =
        read_file-write_file t 1 size body off f v w
          (record { connected = true; link = opened_peer (ready_peer p) f u })
          (record { opened = refl; clear = refl; dialed = refl; drained = refl })
          (opened-IsOpen (ready_peer p) f u (omega arith) (omega arith)) range' fits' e g in
      (
        ap (λ x. x.0) opened,
        ap (λ x. (write_file (some 1) body off x.1).0) opened ∙ through.0,
        ap (λ x. (read_file (some 1) size off (write_file (some 1) body off x.1).1).0) opened
            ∙ through.1,
      )
