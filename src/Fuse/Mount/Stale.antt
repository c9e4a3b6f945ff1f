-- ===== src/Fuse/Mount/Stale.antt =====
-- A file that is open under the mount when its stream fails: the handle is a number of the session that
-- is gone, and the next session gives the same numbers.
use remote_adapter.Prelude.{
  ℕ, ◌+◌, ◌^◌, ◌≤◌, ◌<◌, ◌≡◌, ◌∙◌, refl, ap, subst, true, false, some, Bytes, length, arith,
  if◌then◌else◌,
}
use remote_adapter.Prelude.Int.{ℤ, Fits}
use remote_adapter.Protocol.Types.{max_frame}
use remote_adapter.Routing.{Table, is_remote}
use remote_adapter.Executor.Host.{Host, done}
use remote_adapter.Executor.Fs.{new_service}
use remote_adapter.Adapter.Session.{new_session}
use remote_adapter.Adapter.Wire.{wire_link}
use remote_adapter.Fuse.Client.{Client, new_client, reset}
use remote_adapter.Fuse.Nodes.{good, open_file, write_file, keeps_cache}
use remote_adapter.Fuse.Mount.{conn_link}
use remote_adapter.Fuse.Mount.Relay.{IsLive, executor}
use remote_adapter.Fuse.Mount.Files.{IsOpen, write_file-remote}
use remote_adapter.Fuse.Mount.Opened.{Opens, with_file, opened_peer, opened-IsOpen}
use remote_adapter.Fuse.Mount.Fresh.{ready_peer, open_file-first}

module _ {h : Host} (t : Table) where
  reset_up :
      (c : Client (conn_link h (wire_link h) t))
      → c.connected ≡ true
      → reset c
        ≡ new_client (conn_link h (wire_link h) t) ((conn_link h (wire_link h) t).shut c.link)
  unfolding reset new_client
  reset_up c up =
      ap
        (λ b.
          if b
          then record { connected = false; link = (conn_link h (wire_link h) t).shut c.link }
          else c)
        up

  -- A handle of the mount outlives the stream that it was given on, and then names another file: the first
  -- handle stands for one file; the stream fails and the client drops it; another file is opened, under the
  -- same handle; and the same write, which went to the first file before, now goes to the other, whose
  -- host takes the bytes. The path routes remote, the offset, the flags and the file's numbers are in
  -- the range of their types, and the path and the bytes fit a frame.
  pub write_file-stale :
      (path : Bytes) (flags : ℕ) (body : Bytes) (off : ℤ) (f g : h.File) (u v w : h.World)
      (c : Client (conn_link h (wire_link h) t))
      → IsLive c.connected c.link
      → IsOpen c.link 1 f
      → Fits (2 ^ 63) off
      → length body + 21 ≤ max_frame
      → h.write_at f body off (executor c.link).world ≡ (done (length body), w)
      → is_remote t path ≡ true
      → flags < 2 ^ 32
      → length path + 9 ≤ max_frame
      → Opens h path flags (executor (reset c).link).world g u
      → h.write_at g body off u ≡ (done (length body), v)
      → let (gave, d) = open_file path flags (reset c) in
        ((executor (write_file (some 1) body off c).1.link).world ≡ w)
        × (gave ≡ good (1, keeps_cache flags))
        × ((executor (write_file (some 1) body off d).1.link).world ≡ v)
  unfolding opened_peer with_file ready_peer new_session new_service
      remote_adapter.Adapter.Session.close new_client
  write_file-stale path flags body off f g u v w c live held range fits e side range' fits' o e' =
      let p = (conn_link h (wire_link h) t).shut c.link in
      let opened =
        open_file-first t path flags g u p side range' fits' (
          subst (λ d. Opens h path flags (executor d.link).world g u) (reset_up c live.opened) o) in
      let again = ap (open_file path flags) (reset_up c live.opened) ∙ opened in
      (
        ap (λ x. (executor x.1.link).world)
            (write_file-remote t 1 body off f w c live held range fits e),
        ap (λ x. x.0) again,
        ap (λ x. (executor (write_file (some 1) body off x.1).1.link).world) again
            ∙ ap (λ x. (executor x.1.link).world)
                (write_file-remote t 1 body off g v
                  (record { connected = true; link = opened_peer (ready_peer p) g u })
                  (record { opened = refl; clear = refl; dialed = refl; drained = refl })
                  (opened-IsOpen (ready_peer p) g u (omega arith) (omega arith)) range fits e'),
      )
