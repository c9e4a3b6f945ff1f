-- ===== src/Adapter/Session/Handles.antt =====
-- The session's own handles: each stands for one side-local handle, on the side that opened it.
use remote_adapter.Prelude.{
  ℕ, ◌+◌, ◌%◌, ◌^◌, ◌≤◌, ◌<◌, ◌≡◌, ◌≢◌, ◌⊎◌, ◌∙◌, refl, ap, Bool, true, false, Option, none, some,
  arith, Bool-cases, inl, inr,
}
use remote_adapter.Prelude.Int.{is_zero}
use remote_adapter.Prelude.Table.{
  lookup, insert, delete, lookup-insert, lookup-delete, lookup_above, Below, insert-Below,
  delete-Below,
}
use remote_adapter.Protocol.Types.{
  Op, op_stat, op_open, op_pread, op_write_file, op_close, op_readdir, op_pwrite, op_create,
  op_unlink, op_mkdir, op_rename, op_setattr, op_server_info, op_other, Request, Response,
}
use remote_adapter.Routing.{Table, is_remote}
use remote_adapter.Executor.Host.{Host}
use remote_adapter.Adapter.Link.{Link}
use remote_adapter.Adapter.Session.Sides.{remote_rpc-Kept}
use remote_adapter.Adapter.Session.{
  Session, HandleRef, local_rpc, on_side, wrapped, forward_by_path, rename, open_path, by_handle,
  by_ref, dispatch, handle, same_side, is_close,
}

module _ {h : Host} {k : Link} where
  pub record IsValid (s : Session h k) : Type 0 where
    pub started : 1 ≤ s.next
    pub below : Below s.next s.handles

  -- What a request may do to the handles.
  data Effect (r : Request) (s t : Session h k) : Type 0 where
    same : t.next ≡ s.next → t.handles ≡ s.handles → Effect r s t
    gave :
        (ref : HandleRef)
        → t.next ≡ (s.next + 1) % 2 ^ 64
        → t.handles ≡ insert s.next ref s.handles
        → Effect r s t
    took : r.op ≡ op_close → t.next ≡ s.next → t.handles ≡ delete r.handle s.handles → Effect r s t

  pub on_side-next : (b : Bool) (r : Request) (s : Session h k) → (on_side b r s).1.next ≡ s.next
  unfolding local_rpc
  on_side-next true r s = (remote_rpc-Kept r s).next
  on_side-next false r s = refl

  pub on_side-handles :
      (b : Bool) (r : Request) (s : Session h k) → (on_side b r s).1.handles ≡ s.handles
  unfolding local_rpc
  on_side-handles true r s = (remote_rpc-Kept r s).handles
  on_side-handles false r s = refl

  forward-Effect :
      (t : Table) (r : Request) (s : Session h k) → Effect r s (forward_by_path t r s).1
  unfolding forward_by_path
  forward-Effect t r s = same (on_side-next _ r s) (on_side-handles _ r s)

  rename-Effect : (t : Table) (r : Request) (s : Session h k) → Effect r s (rename t r s).1
  unfolding rename
  rename-Effect t r s = elim (Bool-cases (same_side (is_remote t r.path) (is_remote t r.path2))) [
    | inl one ↦ simp one (forward-Effect t r s)
    | inr apart ↦ simp apart (same refl refl)
  ]

  wrapped-Effect :
      (b : Bool) (r : Request) (s : Session h k) (a : Response × Session h k)
      → a.1.next ≡ s.next
      → a.1.handles ≡ s.handles
      → Effect r s (wrapped b a).1
  wrapped-Effect b r s (a, t) n e = elim (Bool-cases (is_zero a.error)) [
    | inl good ↦
        rw (good, wrapped)
          (gave (record { remote = b; real = a.handle }) (ap (λ i. (i + 1) % 2 ^ 64) n)
            (ap (λ i. insert i (record { remote = b; real = a.handle }) t.handles) n
              ∙ ap (insert s.next (record { remote = b; real = a.handle })) e))
    | inr bad ↦ rw (bad, wrapped) (same n e)
  ]

  open-Effect : (t : Table) (r : Request) (s : Session h k) → Effect r s (open_path t r s).1
  unfolding open_path
  open-Effect t r s =
      wrapped-Effect (is_remote t r.path) r s (on_side (is_remote t r.path) r s)
        (on_side-next (is_remote t r.path) r s) (on_side-handles (is_remote t r.path) r s)

  by_ref-same :
      (q : Request) (s : Session h k) (ref : Option HandleRef)
      → ((by_ref q s ref).1.next ≡ s.next) × ((by_ref q s ref).1.handles ≡ s.handles)
  by_ref-same q s none = (refl, refl)
  by_ref-same q s (some ref) = (on_side-next ref.remote _ s, on_side-handles ref.remote _ s)

  by_handle-Effect : (r : Request) (s : Session h k) → Effect r s (by_handle r s).1
  unfolding by_handle
  by_handle-Effect r s = elim (Bool-cases (is_close r.op)) [
    | inl closes ↦
        simp closes (took (closing r.op closes) (by_ref-same r _ _).0 (by_ref-same r _ _).1)
    | inr other ↦ simp other (same (by_ref-same r s _).0 (by_ref-same r s _).1)
  ]
    where
      closing : (o : Op) → is_close o ≡ true → o ≡ op_close
      closing op_close e = refl
      closing _ e = cc

  dispatch-Effect :
      (o : Op) (t : Table) (r : Request) (s : Session h k) → Effect r s (dispatch o t r s).1
  dispatch-Effect op_stat t r s = forward-Effect t r s
  dispatch-Effect op_readdir t r s = forward-Effect t r s
  dispatch-Effect op_write_file t r s = forward-Effect t r s
  dispatch-Effect op_unlink t r s = forward-Effect t r s
  dispatch-Effect op_mkdir t r s = forward-Effect t r s
  dispatch-Effect op_setattr t r s = forward-Effect t r s
  dispatch-Effect op_rename t r s = rename-Effect t r s
  dispatch-Effect op_open t r s = open-Effect t r s
  dispatch-Effect op_create t r s = open-Effect t r s
  dispatch-Effect op_pread t r s = by_handle-Effect r s
  dispatch-Effect op_pwrite t r s = by_handle-Effect r s
  dispatch-Effect op_close t r s = by_handle-Effect r s
  dispatch-Effect op_server_info t r s = same refl refl
  dispatch-Effect (op_other n) t r s = same refl refl

  handle-Effect : (t : Table) (r : Request) (s : Session h k) → Effect r s (handle t r s).1
  unfolding handle
  handle-Effect t r s = dispatch-Effect r.op t r s

  -- Every request keeps the session's handles well formed: none is 0, and none that is live is yet to
  -- be given out. The 64-bit counter must not be about to wrap.
  pub handle-IsValid :
      (t : Table) (r : Request) (s : Session h k)
      → IsValid s
      → s.next + 1 < 2 ^ 64
      → IsValid (handle t r s).1
  handle-IsValid t r s v room = elim (handle-Effect t r s) [
    | same n f ↦ record { started = rw n v.started; below = rw n (rw f v.below) }
    | gave ref n f ↦ record {
      started = rw n (omega arith);
      below = rw n (rw f (rw counted (insert-Below s.next ref s.handles v.started v.below)));
    }
    | took o n f ↦ record {
      started = rw n v.started;
      below = rw n (rw f (delete-Below s.next r.handle s.handles v.below));
    }
  ]
    where
      counted : (s.next + 1) % 2 ^ 64 ≡ s.next + 1
      counted = omega arith

  -- In a valid session, a live handle keeps its side and its side-local handle through every request
  -- but its own close.
  pub handle_keeps_ref :
      (t : Table) (r : Request) (s : Session h k) (j : ℕ) (ref : HandleRef)
      → IsValid s
      → lookup j s.handles ≡ some ref
      → (r.op ≢ op_close) ⊎ (r.handle ≢ j)
      → lookup j (handle t r s).1.handles ≡ some ref
  handle_keeps_ref t r s j ref v live other = elim (handle-Effect t r s) [
    | same n e ↦ rw e live
    | gave new n e ↦
        rw e (rw lookup-insert (ground (arith, lookup_above s.next j s.handles v.below)))
    | took o n e ↦ rw e (rw lookup-delete (ground arith))
  ]

  -- A request takes one number at most off the counter.
  pub handle-next :
      (t : Table) (r : Request) (s : Session h k)
      → s.next + 1 < 2 ^ 64
      → (handle t r s).1.next ≤ s.next + 1
  handle-next t r s room = elim (handle-Effect t r s) [
    | same n f ↦ rw n (omega arith)
    | gave ref n f ↦ rw n (omega arith)
    | took o n f ↦ rw n (omega arith)
  ]
