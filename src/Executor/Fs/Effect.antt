-- ===== src/Executor/Fs/Effect.antt =====
-- What each request may do to the handle table: nothing, one new handle, or one handle less.
use remote_adapter.Prelude.{
  Bool, true, false, Bytes, ℕ, ◌+◌, ◌%◌, ◌^◌, ◌≡◌, refl, ap, Option, none, some, List, bit_or,
}
use remote_adapter.Prelude.Table.{lookup, insert, delete}
use remote_adapter.Protocol.Types.{
  Op, op_stat, op_open, op_pread, op_write_file, op_close, op_readdir, op_pwrite, op_create,
  op_unlink, op_mkdir, op_rename, op_setattr, op_server_info, op_other, Request, Response, set_mode,
  set_size, set_atime, set_mtime,
}
use remote_adapter.Executor.Host.{Host, GoError, Outcome, done, failed, FileInfo, DirEntry}
use remote_adapter.Executor.Fs.{
  Service, register, opened, open_with_mode, serve_open, serve_create, serve_close, serve_pread,
  serve_pwrite, serve_stat, serve_unlink, serve_mkdir, serve_rename, serve_setattr, change, changed,
  report, close_file, read_result, pread_file, written, pwrite_file, looked_at, listed, has_bit,
  change_times, change_size, set_stamps, success, serve_write_file, serve_readdir, serve, dispatch,
  perm_bits,
}

module _ {h : Host} where
  -- What an operation may do to the handles.
  pub data Effect (r : Request) (s t : Service h) : Type 0 where
    same : t.next ≡ s.next → t.files ≡ s.files → Effect r s t
    gave :
        (f : h.File)
        → t.next ≡ (s.next + 1) % 2 ^ 64
        → t.files ≡ insert s.next f s.files
        → Effect r s t
    took : r.op ≡ op_close → t.next ≡ s.next → t.files ≡ delete r.handle s.files → Effect r s t

  open_with_mode-Effect :
      (r : Request) (flags perm : ℕ) (s : Service h) → Effect r s (open_with_mode r flags perm s).1
  unfolding open_with_mode
  open_with_mode-Effect r flags perm s = on_open (h.open_file r.path flags perm s.world)
    where
      on_stat : (f : h.File) (a : Outcome FileInfo × h.World) → Effect r s (register s f a).1
      on_stat f (failed e, w) = same refl refl
      on_stat f (done fi, w) = gave f refl refl

      on_open : (a : Outcome h.File × h.World) → Effect r s (opened s a).1
      on_open (failed e, w) = same refl refl
      on_open (done f, w) = on_stat f (h.file_stat f w)

  report-Effect :
      (r : Request) (s : Service h) (a : Outcome (Unit {0}) × h.World) → Effect r s (report s a).1
  report-Effect r s (failed e, w) = same refl refl
  report-Effect r s (done u, w) = same refl refl

  close-Effect : (r : Request) (s : Service h) → r.op ≡ op_close → Effect r s (serve_close r s).1
  unfolding serve_close
  close-Effect r s o = go (lookup r.handle s.files)
    where
      rest : Service h
      rest = record s { files = delete r.handle s.files }

      closed : (a : Outcome (Unit {0}) × h.World) → Effect r s (report rest a).1
      closed (failed e, w) = took o refl refl
      closed (done u, w) = took o refl refl

      go : (f : Option h.File) → Effect r s (close_file rest f).1
      go none = took o refl refl
      go (some f) = closed (h.file_close f s.world)

  pread-Effect : (r : Request) (s : Service h) → Effect r s (serve_pread r s).1
  unfolding serve_pread
  pread-Effect r s = go (lookup r.handle s.files)
    where
      read : (a : (Bytes × Option GoError) × h.World) → Effect r s (read_result s a).1
      read ((b, none), w) = same refl refl
      read ((b, some e), w) = same refl refl

      go : (f : Option h.File) → Effect r s (pread_file r s f).1
      go none = same refl refl
      go (some f) = read (h.read_at f r.len r.off s.world)

  pwrite-Effect : (r : Request) (s : Service h) → Effect r s (serve_pwrite r s).1
  unfolding serve_pwrite
  pwrite-Effect r s = go (lookup r.handle s.files)
    where
      wrote : (a : Outcome ℕ × h.World) → Effect r s (written s a).1
      wrote (failed e, w) = same refl refl
      wrote (done n, w) = same refl refl

      go : (f : Option h.File) → Effect r s (pwrite_file r s f).1
      go none = same refl refl
      go (some f) = wrote (h.write_at f r.body r.off s.world)

  -- One change of `setattr`, in a state that has the handles of `s`.
  change-Effect :
      (r : Request) (s : Service h) (b : Bool) (call : h.World → Outcome (Unit {0}) × h.World)
      (rest : Service h → Response × Service h)
      → ((t : Service h) → t.next ≡ s.next → t.files ≡ s.files → Effect r s (rest t).1)
      → (t : Service h) → t.next ≡ s.next
      → t.files ≡ s.files
      → Effect r s (change b call rest t).1
  change-Effect r s false call rest later t n f = later t n f
  change-Effect r s true call rest later t n f = go (call t.world)
    where
      go : (a : Outcome (Unit {0}) × h.World) → Effect r s (changed t rest a).1
      go (failed e, w) = same n f
      go (done u, w) = later (record t { world = w }) n f

  setattr-Effect : (r : Request) (s : Service h) → Effect r s (serve_setattr r s).1
  unfolding serve_setattr
  setattr-Effect r s =
      change-Effect r s (has_bit r.mask set_mode) (h.chmod r.path (perm_bits r.mode))
        (change_size r) sized s refl refl
    where
      timed :
          (t : Service h) → t.next ≡ s.next → t.files ≡ s.files → Effect r s (change_times r t).1
      timed =
          change-Effect r s (has_bit r.mask (bit_or set_atime set_mtime)) (set_stamps h r)
            (λ t. (success, t)) (λ t n f. same n f)

      sized : (t : Service h) → t.next ≡ s.next → t.files ≡ s.files → Effect r s (change_size r t).1
      sized =
          change-Effect r s (has_bit r.mask set_size) (h.truncate r.path r.size) (change_times r)
            timed

  dispatch-Effect :
      (o : Op) (r : Request) (s : Service h) → r.op ≡ o → Effect r s (dispatch o r s).1
  dispatch-Effect op_stat r s e = unfold serve_stat in looked (h.stat r.path s.world)
    where
      looked : (a : Outcome FileInfo × h.World) → Effect r s (looked_at s a).1
      looked (failed e, w) = same refl refl
      looked (done fi, w) = same refl refl
  dispatch-Effect op_open r s e = unfold serve_open in open_with_mode-Effect r r.flags 0o644 s
  dispatch-Effect op_pread r s e = pread-Effect r s
  dispatch-Effect op_write_file r s e = unfold serve_write_file in report-Effect r s _
  dispatch-Effect op_close r s e = close-Effect r s e
  dispatch-Effect op_readdir r s e = unfold serve_readdir in list (h.read_dir r.path s.world)
    where
      list : (a : Outcome (List DirEntry) × h.World) → Effect r s (listed s a).1
      list (failed e, w) = same refl refl
      list (done es, w) = same refl refl
  dispatch-Effect op_pwrite r s e = pwrite-Effect r s
  dispatch-Effect op_create r s e =
      unfold serve_create in
      open_with_mode-Effect r (bit_or r.flags h.o_create) (perm_bits r.mode) s
  dispatch-Effect op_unlink r s e = unfold serve_unlink in report-Effect r s _
  dispatch-Effect op_mkdir r s e = unfold serve_mkdir in report-Effect r s _
  dispatch-Effect op_rename r s e = unfold serve_rename in report-Effect r s _
  dispatch-Effect op_setattr r s e = setattr-Effect r s
  dispatch-Effect op_server_info r s e = same refl refl
  dispatch-Effect (op_other n) r s e = same refl refl

  pub serve-dispatch :
      (r : Request) (s : Service h) {o : Op} → r.op ≡ o → serve r s ≡ dispatch o r s
  unfolding serve
  serve-dispatch r s e = ap (λ x. dispatch x r s) e

  pub serve-Effect : (r : Request) (s : Service h) → Effect r s (serve r s).1
  unfolding serve
  serve-Effect r s = dispatch-Effect r.op r s refl
