-- ===== src/Executor/Fs/Handles.antt =====
-- The handle table: which handles are live, and which file each one stands for.
use remote_adapter.Prelude.{
  true, ℕ, ◌+◌, ◌%◌, ◌^◌, ◌≤◌, ◌<◌, ◌≡◌, ◌≢◌, ◌⊎◌, inl, inr, refl, ◌∙◌, Option, none, some, arith,
  ◌==◌, if◌then◌else◌,
}
use remote_adapter.Prelude.Int.{neg, is_zero}
use remote_adapter.Prelude.Table.{
  lookup, delete, lookup-insert, lookup-delete, insert-Below, Below, delete-Below, lookup_above,
}
use remote_adapter.Protocol.Types.{op_pread, op_close, op_pwrite, Request, errno_response}
use remote_adapter.Executor.Host.{Host, GoError, Outcome, done, failed, FileInfo}
use remote_adapter.Executor.Fs.{
  Service, ebadf, new_service, open_with_mode, serve_close, serve_pread, serve_pwrite, report,
  close_file, serve, to_errno,
}
use remote_adapter.Executor.Fs.Effect.{same, gave, took, serve-Effect, serve-dispatch}

module _ {h : Host} where
  -- Every live handle has been given out, and none is 0.
  pub record IsValid (s : Service h) : Type 0 where
    pub started : 1 ≤ s.next
    pub below : Below s.next s.files

  pub new_service-IsValid : (w : h.World) → IsValid (new_service {h = h} w)
  unfolding new_service
  new_service-IsValid w = record { started = omega arith; below = tt }

  -- Every request keeps the table well formed: no live handle is 0 or yet to be given out. The
  -- 64-bit counter must not be about to wrap.
  pub serve-IsValid :
      (r : Request) (s : Service h) → IsValid s → s.next + 1 < 2 ^ 64 → IsValid (serve r s).1
  serve-IsValid r s v room = elim (serve-Effect r s) [
    | same n f ↦ record { started = rw n v.started; below = rw n (rw f v.below) }
    | gave file n f ↦ record {
      started = rw n (omega arith);
      below = rw n (rw f (rw counted (insert-Below s.next file s.files v.started v.below)));
    }
    | took o n f ↦ record {
      started = rw n v.started;
      below = rw n (rw f (delete-Below s.next r.handle s.files v.below));
    }
  ]
    where
      counted : (s.next + 1) % 2 ^ 64 ≡ s.next + 1
      counted = omega arith

  -- In a valid table, a live handle keeps its file through every request but its own close.
  pub serve_keeps_handle :
      (r : Request) (s : Service h) (j : ℕ) (f : h.File)
      → IsValid s
      → lookup j s.files ≡ some f
      → (r.op ≢ op_close) ⊎ (r.handle ≢ j)
      → lookup j (serve r s).1.files ≡ some f
  serve_keeps_handle r s j f v live other = elim (serve-Effect r s) [
    | same n e ↦ rw e live
    | gave file n e ↦
        rw e (rw lookup-insert (ground (arith, lookup_above s.next j s.files v.below)))
    | took o n e ↦ rw e (rw lookup-delete (ground arith))
  ]

  -- What an open hands out from a valid table where the host opens the file and looks at it:
  -- success, and the host's file under a handle that was not live, with the rest of the table as it
  -- was.
  pub open_with_mode_fresh :
      (r : Request) (flags perm : ℕ) (s : Service h) {f : h.File} {w w' : h.World} {fi : FileInfo}
      → IsValid s
      → h.open_file r.path flags perm s.world ≡ (done f, w)
      → h.file_stat f w ≡ (done fi, w')
      → let (a, t) = open_with_mode r flags perm s in
        (is_zero a.error ≡ true)
        × (lookup a.handle s.files ≡ none)
        × ((j : ℕ) → lookup j t.files ≡ (if a.handle == j then some f else lookup j s.files))
  unfolding open_with_mode
  open_with_mode_fresh r flags perm s {f} v e e' = rw e (
      rw e' (
        refl,
        lookup_above s.next s.next s.files v.below (omega arith),
        λ j. lookup-insert s.next j f s.files,
      ))

  -- A file that the host opens and cannot look at is closed again, and leaves no handle; the answer
  -- is the error number of the failure.
  pub open_with_mode_unseen :
      (r : Request) (flags perm : ℕ) (s : Service h) {f : h.File} {w w' : h.World} {x : GoError}
      → h.open_file r.path flags perm s.world ≡ (done f, w)
      → h.file_stat f w ≡ (failed x, w')
      → open_with_mode r flags perm s
        ≡ (errno_response (to_errno x), record s { world = (h.file_close f w').1 })
  unfolding open_with_mode
  open_with_mode_unseen r flags perm s e e' = rw e (rw e')

  serve_close_files :
      (r : Request) (s : Service h) → (serve_close r s).1.files ≡ delete r.handle s.files
  unfolding serve_close
  serve_close_files r s = go (lookup r.handle s.files)
    where
      rest : Service h
      rest = record s { files = delete r.handle s.files }

      closed :
          (a : Outcome (Unit {0}) × h.World) → (report rest a).1.files ≡ delete r.handle s.files
      closed (failed e, w) = refl
      closed (done u, w) = refl

      go : (f : Option h.File) → (close_file rest f).1.files ≡ delete r.handle s.files
      go none = refl
      go (some f) = closed (h.file_close f s.world)

  dead_pread :
      (q : Request) (s : Service h)
      → lookup q.handle s.files ≡ none
      → serve_pread q s ≡ (errno_response (neg ebadf), s)
  unfolding serve_pread
  dead_pread q s e = rw e

  dead_pwrite :
      (q : Request) (s : Service h)
      → lookup q.handle s.files ≡ none
      → serve_pwrite q s ≡ (errno_response (neg ebadf), s)
  unfolding serve_pwrite
  dead_pwrite q s e = rw e

  -- A handle that was closed is dead: the next request, an `OpPread` or `OpPwrite` on it, answers
  -- EBADF and does nothing.
  pub serve_after_close :
      (r q : Request) (s : Service h)
      → r.op ≡ op_close
      → q.handle ≡ r.handle
      → (q.op ≡ op_pread) ⊎ (q.op ≡ op_pwrite)
      → serve q (serve r s).1 ≡ (errno_response (neg ebadf), (serve r s).1)
  serve_after_close r q s e k o = rw (serve-dispatch r s e) (elim o [
    | inl o' ↦ serve-dispatch q _ o' ∙ dead_pread q (serve_close r s).1 gone
    | inr o' ↦ serve-dispatch q _ o' ∙ dead_pwrite q (serve_close r s).1 gone
  ])
    where
      gone : lookup q.handle (serve_close r s).1.files ≡ none
      gone = rw (serve_close_files r s) (rw k (rw lookup-delete (ground arith)))
