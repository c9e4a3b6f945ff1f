-- ===== src/Fuse/Mount/Files.antt =====
-- A file of the executor, opened, written and read through the mount.
use remote_adapter.Prelude.{
  ℕ, ◌+◌, ◌%◌, ◌^◌, ◌≤◌, ◌<◌, ◌≡◌, ◌∙◌, refl, ap, inl, inr, true, none, some, Bytes, length, arith,
}
use remote_adapter.Prelude.Int.{ℤ, pos, Fits, to_word}
use remote_adapter.Prelude.Table.{lookup}
use native.Mathlib.Nat.{mod-eq_of_lt}
use remote_adapter.Protocol.Types.{op_pread, op_pwrite, Request, blank_request, max_frame}
use remote_adapter.Protocol.Frame.{put_u32, put_u64}
use remote_adapter.Protocol.Frame.Laws.{write_frame_fits}
use remote_adapter.Protocol.Parser.{put_bytes}
use remote_adapter.Protocol.Requests.{write_request, request_fields}
use remote_adapter.Protocol.Requests.Shape.{sent, InRange}
use remote_adapter.Protocol.Requests.Relayed.{request_in, zero_word, zero_fits, zero_handle}
use remote_adapter.Protocol.Responses.{write_response, response_fields}
use remote_adapter.Protocol.Responses.Shape.{answered, answer}
use remote_adapter.Protocol.Responses.Relayed.{response_in, no_error}
use remote_adapter.Protocol.Responses.Shape as ResponseShape
use remote_adapter.Routing.{Table}
use remote_adapter.Executor.Host.{Host, done}
use remote_adapter.Executor.Fs.{
  Service, serve, serve_pread, serve_pwrite, pread_file, pwrite_file, read_result, written, success,
}
use remote_adapter.Adapter.Session.Lifetime.{handle-use}
use remote_adapter.Adapter.Wire.{wire_link}
use remote_adapter.Fuse.Client.{Client}
use remote_adapter.Fuse.Nodes.{good, read_file, write_file, replied}
use remote_adapter.Fuse.Mount.{Peer, conn_link}
use remote_adapter.Fuse.Mount.Relay.{IsLive, executor, with_executor, call-relayed}

unfoldable pread_request : ℕ → ℕ → ℤ → Request
pread_request n size off = record (blank_request op_pread) {
  handle = n;
  off = off;
  len = size % 2 ^ 32;
}

unfoldable pwrite_request : ℕ → Bytes → ℤ → Request
pwrite_request n body off = record (blank_request op_pwrite) { handle = n; off = off; body = body }

pread-InRange :
    (n size : ℕ) (off : ℤ) → n < 2 ^ 64 → Fits (2 ^ 63) off → InRange (pread_request n size off)
unfolding pread_request
pread-InRange n size off a b =
    request_in zero_word zero_word zero_word a b (omega arith) zero_fits zero_fits zero_fits

pwrite-InRange :
    (n : ℕ) (body : Bytes) (off : ℤ)
    → n < 2 ^ 64
    → Fits (2 ^ 63) off
    → InRange (pwrite_request n body off)
unfolding pwrite_request
pwrite-InRange n body off a b =
    request_in zero_word zero_word zero_word a b zero_word zero_fits zero_fits zero_fits

body-InRange : (body : Bytes) → ResponseShape.InRange (record success { body = body })
body-InRange body = response_in no_error zero_word zero_fits zero_handle zero_fits

count-InRange : (n : ℕ) → n ≤ max_frame → ResponseShape.InRange (record success { size = pos n })
count-InRange n le = response_in no_error zero_word (omega arith) zero_handle zero_fits

module _ {h : Host} where
  pread-executor :
      (m n : ℕ) (off : ℤ) (f : h.File) (body : Bytes) (w : h.World) (s : Service h)
      → lookup m s.files ≡ some f
      → h.read_at f (n % 2 ^ 32) off s.world ≡ ((body, none), w)
      → serve (sent op_pread (pread_request m n off)) s
        ≡ (record success { body = body }, record s { world = w })
  unfolding serve serve_pread sent pread_request
  pread-executor m n off f body w s e g =
      ap (pread_file (pread_request m n off) s) e ∙ ap (read_result s) g

  pwrite-executor :
      (m n : ℕ) (off : ℤ) (f : h.File) (body : Bytes) (w : h.World) (s : Service h)
      → lookup m s.files ≡ some f
      → h.write_at f body off s.world ≡ (done n, w)
      → serve (sent op_pwrite (pwrite_request m body off)) s
        ≡ (record success { size = pos n }, record s { world = w })
  unfolding serve serve_pwrite sent pwrite_request
  pwrite-executor m n off f body w s e g =
      ap (pwrite_file (pwrite_request m body off) s) e ∙ ap (written s) g

  -- A handle of the session that stands for an open file of the executor, both numbers of 64 bits.
  pub record IsOpen (p : Peer h (wire_link h)) (n : ℕ) (f : h.File) : Type 0 where
    pub real : ℕ
    pub theirs : real < 2 ^ 64
    pub ours : n < 2 ^ 64
    pub there : lookup n p.session.handles ≡ some (record { remote = true; real = real })
    pub held : lookup real (executor p).files ≡ some f

module _ {h : Host} (t : Table) where
  pub read_file-remote :
      (n size : ℕ) (off : ℤ) (f : h.File) (body : Bytes) (w : h.World)
      (c : Client (conn_link h (wire_link h) t))
      → IsLive c.connected c.link
      → IsOpen c.link n f
      → Fits (2 ^ 63) off
      → length body + 8 ≤ max_frame
      → h.read_at f (size % 2 ^ 32) off (executor c.link).world ≡ ((body, none), w)
      → read_file (some n) size off c ≡ (
        good body,
        record c { link = with_executor c.link (record (executor c.link) { world = w }) },
      )
  unfolding read_file pread_request sent write_request request_fields write_response response_fields
      put_u32 put_u64 put_bytes answered answer
  read_file-remote n size off f body w c live o range le e = ap (replied (λ a. a.body)) (
      call-relayed t (pread_request n size off) (pread_request o.real size off) c live refl
        (handle-use t (pread_request n size off) c.link.session (inl refl) o.there)
        (pread-InRange n size off o.ours range) (pread-InRange o.real size off o.theirs range)
        (write_frame_fits _ (omega arith)) (write_frame_fits _ (omega arith))
        (pread-executor o.real size off f body w (executor c.link) o.held e) (body-InRange body)
        (write_frame_fits _ (omega arith)))

  pub write_file-remote :
      (n : ℕ) (body : Bytes) (off : ℤ) (f : h.File) (w : h.World)
      (c : Client (conn_link h (wire_link h) t))
      → IsLive c.connected c.link
      → IsOpen c.link n f
      → Fits (2 ^ 63) off
      → length body + 21 ≤ max_frame
      → h.write_at f body off (executor c.link).world ≡ (done (length body), w)
      → write_file (some n) body off c ≡ (
        good (length body),
        record c { link = with_executor c.link (record (executor c.link) { world = w }) },
      )
  unfolding write_file pwrite_request sent write_request request_fields write_response
      response_fields put_u32 put_u64 put_bytes answered answer
  write_file-remote n body off f w c live o range le e =
      ap (replied (λ a. to_word (2 ^ 32) a.size)) (
        call-relayed t (pwrite_request n body off) (pwrite_request o.real body off) c live refl
          (handle-use t (pwrite_request n body off) c.link.session (inr refl) o.there)
          (pwrite-InRange n body off o.ours range) (pwrite-InRange o.real body off o.theirs range)
          (write_frame_fits _ (omega arith)) (write_frame_fits _ (omega arith))
          (pwrite-executor o.real (length body) off f body w (executor c.link) o.held e)
          (count-InRange (length body) (omega arith)) (write_frame_fits _ (omega arith)))
      ∙ ap
          (λ i. (
            good i,
            record c { link = with_executor c.link (record (executor c.link) { world = w }) },
          ))
          (mod-eq_of_lt (omega arith))

  -- What a program writes to an open file of the mount, it reads back, where the file's host reads
  -- back what was written to the file: the bytes go through the mount, the adapter and the executor
  -- unchanged, each time under the handle of the stage that they pass. The streams are there with
  -- nothing of an earlier answer left on them, the offset has 64 bits, and the bytes fit a frame.
  pub read_file-write_file :
      (n size : ℕ) (body : Bytes) (off : ℤ) (f : h.File) (v w : h.World)
      (c : Client (conn_link h (wire_link h) t))
      → IsLive c.connected c.link
      → IsOpen c.link n f
      → Fits (2 ^ 63) off
      → length body + 21 ≤ max_frame
      → h.write_at f body off (executor c.link).world ≡ (done (length body), v)
      → h.read_at f (size % 2 ^ 32) off v ≡ ((body, none), w)
      → let (wrote, d) = write_file (some n) body off c in
        (wrote ≡ good (length body)) × ((read_file (some n) size off d).0 ≡ good body)
  read_file-write_file n size body off f v w c live o range le e g =
      let written = write_file-remote n body off f v c live o range le e in
      (
        ap (λ x. x.0) written,
        ap (λ x. (read_file (some n) size off x.1).0) written
            ∙ ap (λ x. x.0)
                (read_file-remote n size off f body w
                  (record c {
                    link = with_executor c.link (record (executor c.link) { world = v });
                  })
                  (record {
                    opened = live.opened;
                    clear = refl;
                    dialed = live.dialed;
                    drained = refl;
                  })
                  (record {
                    real = o.real;
                    theirs = o.theirs;
                    ours = o.ours;
                    there = o.there;
                    held = o.held;
                  })
                  range (omega arith) g),
      )
