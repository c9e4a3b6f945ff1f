-- ===== src/Adapter/Session/Redial.antt =====
-- The stream to the executor is dialed once.
use remote_adapter.Prelude.{
  ◌≡◌, ◌∙◌, sym, subst, Bool, true, false, Option, none, some, List, [], ◌∷◌, Bool-cases, inl, inr,
  if◌then◌else◌,
}
use remote_adapter.Prelude.Int.{is_zero}
use remote_adapter.Prelude.Table.{lookup, delete}
use remote_adapter.Protocol.Types.{
  Op, op_open, op_pread, op_close, op_pwrite, op_create, op_rename, op_server_info, op_other,
  Request, Response,
}
use remote_adapter.Routing.{Table, is_remote}
use remote_adapter.Executor.Host.{Host}
use remote_adapter.Adapter.Link.{Link}
use remote_adapter.Adapter.Session.{
  Session, HandleRef, relay, relayed, received, dialed, remote_rpc, local_rpc, on_side, wrapped,
  forward_by_path, rename, open_path, by_handle, by_ref, is_close, same_side, dispatch, handle,
}
use remote_adapter.Adapter.Session.Lifetime.{run}

-- A measure of a link that sending and receiving do not change, such as the number of streams dialed,
-- announced or closed on it.
pub record IsUnused (k : Link) {A : Type 0} (seen : k.State → A) : Type 0 where
  pub sends : (r : Request) (l : k.State) → seen (k.send r l).1 ≡ seen l
  pub receives : (o : Op) (l : k.State) → seen (k.receive o l).1 ≡ seen l

module _ {h : Host} {k : Link} {A : Type 0} (seen : k.State → A) (kept : IsUnused k seen)
    (was : A) where
  -- The session has dialed the executor, and what is seen of its link is as it was.
  abbrev IsUp : Session h k → Type 0
  IsUp s = (s.connected ≡ true) × (seen s.link ≡ was)

  relay-IsUp : (r : Request) (s : Session h k) → IsUp s → IsUp (relay r s).1
  relay-IsUp r s (up, same) = sent (k.send r s.link) (kept.sends r s.link ∙ same)
    where
      got : (a : Option Response × k.State) → seen a.1 ≡ was → IsUp (received s a).1
      got (none, l) e = (up, e)
      got (some a, l) e = (up, e)

      sent : (a : Bool × k.State) → seen a.1 ≡ was → IsUp (relayed r s a).1
      sent (false, l) e = (up, e)
      sent (true, l) e = got (k.receive r.op l) (kept.receives r.op l ∙ e)

  on_side-IsUp : (b : Bool) (r : Request) (s : Session h k) → IsUp s → IsUp (on_side b r s).1
  unfolding remote_rpc local_rpc
  on_side-IsUp true r s up =
      subst (λ b. IsUp (if b then relay r s else dialed r s (k.dial s.link)).1) (sym up.0)
        (relay-IsUp r s up)
  on_side-IsUp false r s up = up

  wrapped-IsUp : (b : Bool) (a : Response × Session h k) → IsUp a.1 → IsUp (wrapped b a).1
  wrapped-IsUp b (a, s) up = elim (Bool-cases (is_zero a.error)) [
    | inl good ↦ rw (good, wrapped) up
    | inr bad ↦ rw (bad, wrapped) up
  ]

  forward-IsUp :
      (t : Table) (r : Request) (s : Session h k) → IsUp s → IsUp (forward_by_path t r s).1
  unfolding forward_by_path
  forward-IsUp t r s up = on_side-IsUp (is_remote t r.path) r s up

  rename-IsUp : (t : Table) (r : Request) (s : Session h k) → IsUp s → IsUp (rename t r s).1
  unfolding rename
  rename-IsUp t r s up = elim (Bool-cases (same_side (is_remote t r.path) (is_remote t r.path2))) [
    | inl one ↦ rw one (forward-IsUp t r s up)
    | inr apart ↦ rw apart up
  ]

  open-IsUp : (t : Table) (r : Request) (s : Session h k) → IsUp s → IsUp (open_path t r s).1
  unfolding open_path
  open-IsUp t r s up =
      wrapped-IsUp (is_remote t r.path) (on_side (is_remote t r.path) r s)
        (on_side-IsUp (is_remote t r.path) r s up)

  by_ref-IsUp :
      (r : Request) (s : Session h k) (ref : Option HandleRef) → IsUp s → IsUp (by_ref r s ref).1
  by_ref-IsUp r s none up = up
  by_ref-IsUp r s (some ref) up = on_side-IsUp ref.remote (record r { handle = ref.real }) s up

  by_handle-IsUp : (r : Request) (s : Session h k) → IsUp s → IsUp (by_handle r s).1
  unfolding by_handle
  by_handle-IsUp r s up = elim (Bool-cases (is_close r.op)) [
    | inl closes ↦ simp closes (
        by_ref-IsUp r (record s { handles = delete r.handle s.handles }) (lookup r.handle s.handles)
          up)
    | inr other ↦ simp other (by_ref-IsUp r s (lookup r.handle s.handles) up)
  ]

  dispatch-IsUp :
      (o : Op) (t : Table) (r : Request) (s : Session h k) → IsUp s → IsUp (dispatch o t r s).1
  dispatch-IsUp op_rename t r s up = rename-IsUp t r s up
  dispatch-IsUp op_open t r s up = open-IsUp t r s up
  dispatch-IsUp op_create t r s up = open-IsUp t r s up
  dispatch-IsUp op_pread t r s up = by_handle-IsUp r s up
  dispatch-IsUp op_pwrite t r s up = by_handle-IsUp r s up
  dispatch-IsUp op_close t r s up = by_handle-IsUp r s up
  dispatch-IsUp op_server_info t r s up = up
  dispatch-IsUp (op_other n) t r s up = up
  dispatch-IsUp _ t r s up = forward-IsUp t r s up

  -- A session that has dialed the executor keeps that stream through every sequence of requests, also
  -- where the stream fails: it never dials again, announces no stream and closes none, so that whatever
  -- sending and receiving leave alone on the link, such as a count of the streams dialed, is as it was.
  pub run-connected :
      (t : Table) (rs : List Request) (s : Session h k)
      → s.connected ≡ true
      → seen s.link ≡ was
      → ((run t rs s).connected ≡ true) × (seen (run t rs s).link ≡ was)
  unfolding run handle
  run-connected t [] s up same = (up, same)
  run-connected t (r ∷ rs) s up same =
      let (up', same') = dispatch-IsUp r.op t r s (up, same) in
      run-connected t rs (handle t r s).1 up' same'
