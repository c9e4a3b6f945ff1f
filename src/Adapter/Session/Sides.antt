-- ===== src/Adapter/Session/Sides.antt =====
-- Which side a request reaches: the routing table decides for a path, the reference for a handle.
use remote_adapter.Prelude.{
  ◌≡◌, refl, Bool, true, false, Option, none, some, Bool-cases, inl, inr, if◌then◌else◌, ap, ◌∙◌,
  subst,
}
use remote_adapter.Prelude.Int.{neg, is_zero}
use remote_adapter.Protocol.Types.{
  Op, op_stat, op_open, op_pread, op_write_file, op_close, op_readdir, op_pwrite, op_create,
  op_unlink, op_mkdir, op_rename, op_setattr, op_server_info, op_other, Request, Response,
  errno_response,
}
use remote_adapter.Routing.{Table, is_remote}
use remote_adapter.Executor.Host.{Host}
use remote_adapter.Adapter.Link.{Link}
use remote_adapter.Adapter.Session.{
  Session, exdev, remote_rpc, local_rpc, on_side, relay, relayed, received, dialed, announced,
  wrapped, forward_by_path, rename, open_path, dispatch, handle, same_side,
}

-- The operations that name their file by a path.
abbrev pub names_path : Op → Bool
names_path op_pread = false
names_path op_pwrite = false
names_path op_close = false
names_path op_server_info = false
names_path (op_other n) = false
names_path _ = true

module _ {h : Host} {k : Link} where
  -- What a call of the executor leaves alone.
  pub record Kept (s t : Session h k) : Type 0 where
    local : t.local ≡ s.local
    pub handles : t.handles ≡ s.handles
    pub next : t.next ≡ s.next

  relay-Kept :
      (r : Request) (s : Session h k) (b : Bool) (l : k.State)
      → Kept s (relay r (record s { connected = b; link = l })).1
  relay-Kept r s b l = sent (k.send r l)
    where
      t : Session h k
      t = record s { connected = b; link = l }

      answered : (a : Option Response × k.State) → Kept s (received t a).1
      answered (none, l') = record { local = refl; handles = refl; next = refl }
      answered (some a, l') = record { local = refl; handles = refl; next = refl }

      sent : (a : Bool × k.State) → Kept s (relayed r t a).1
      sent (false, l') = record { local = refl; handles = refl; next = refl }
      sent (true, l') = answered (k.receive r.op l')

  pub remote_rpc-Kept : (r : Request) (s : Session h k) → Kept s (remote_rpc r s).1
  unfolding remote_rpc
  remote_rpc-Kept r s = elim (Bool-cases s.connected) [
    | inl there ↦ simp there (relay-Kept r s s.connected s.link)
    | inr absent ↦ simp absent (on_dial (k.dial s.link))
  ]
    where
      on_kind : (a : Bool × k.State) → Kept s (announced r s a).1
      on_kind (false, l) = record { local = refl; handles = refl; next = refl }
      on_kind (true, l) = relay-Kept r s true l

      on_dial : (a : Bool × k.State) → Kept s (dialed r s a).1
      on_dial (false, l) = record { local = refl; handles = refl; next = refl }
      on_dial (true, l) = on_kind (k.write_kind l)

  -- What a call of the local service leaves alone.
  record KeptRemote (s t : Session h k) : Type 0 where
    link : t.link ≡ s.link
    connected : t.connected ≡ s.connected
    handles : t.handles ≡ s.handles
    next : t.next ≡ s.next

  local_rpc-KeptRemote : (r : Request) (s : Session h k) → KeptRemote s (local_rpc r s).1
  unfolding local_rpc
  local_rpc-KeptRemote r s = record { link = refl; connected = refl; handles = refl; next = refl }

  abbrev Untouched : Bool → Session h k → Session h k → Type 0
  Untouched true s t = t.local ≡ s.local
  Untouched false s t = (t.link ≡ s.link) × (t.connected ≡ s.connected)

  on_side-Untouched : (b : Bool) (r : Request) (s : Session h k) → Untouched b s (on_side b r s).1
  on_side-Untouched true r s = (remote_rpc-Kept r s).local
  on_side-Untouched false r s = let kept = local_rpc-KeptRemote r s in (kept.link, kept.connected)

  Untouched-refl : (b : Bool) (s : Session h k) → Untouched b s s
  Untouched-refl true s = refl
  Untouched-refl false s = (refl, refl)

  wrapped-Untouched :
      (b side : Bool) (s : Session h k) (a : Response × Session h k)
      → Untouched b s a.1
      → Untouched b s (wrapped side a).1
  wrapped-Untouched true side s (a, t) u = elim (Bool-cases (is_zero a.error)) [
    | inl good ↦ rw (good, wrapped) u
    | inr bad ↦ rw (bad, wrapped) u
  ]
  wrapped-Untouched false side s (a, t) u = elim (Bool-cases (is_zero a.error)) [
    | inl good ↦ rw (good, wrapped) u
    | inr bad ↦ rw (bad, wrapped) u
  ]

  pub handle-dispatch :
      (t : Table) (r : Request) (s : Session h k) {o : Op}
      → r.op ≡ o
      → handle t r s ≡ dispatch o t r s
  unfolding handle
  handle-dispatch t r s e = ap (λ x. dispatch x t r s) e

  forward-Untouched :
      (t : Table) (r : Request) (s : Session h k)
      → Untouched (is_remote t r.path) s (forward_by_path t r s).1
  unfolding forward_by_path
  forward-Untouched t r s = on_side-Untouched (is_remote t r.path) r s

  open-Untouched :
      (t : Table) (r : Request) (s : Session h k)
      → Untouched (is_remote t r.path) s (open_path t r s).1
  unfolding open_path
  open-Untouched t r s =
      wrapped-Untouched (is_remote t r.path) (is_remote t r.path) s
        (on_side (is_remote t r.path) r s) (on_side-Untouched (is_remote t r.path) r s)

  rename-Untouched :
      (t : Table) (r : Request) (s : Session h k)
      → Untouched (is_remote t r.path) s (rename t r s).1
  unfolding rename
  rename-Untouched t r s =
      elim (Bool-cases (same_side (is_remote t r.path) (is_remote t r.path2))) [
        | inl same ↦ simp same (forward-Untouched t r s)
        | inr apart ↦ simp apart (Untouched-refl (is_remote t r.path) s)
      ]

  dispatch-Untouched :
      (o : Op) (t : Table) (r : Request) (s : Session h k)
      → names_path o ≡ true
      → Untouched (is_remote t r.path) s (dispatch o t r s).1
  dispatch-Untouched op_stat t r s e = forward-Untouched t r s
  dispatch-Untouched op_readdir t r s e = forward-Untouched t r s
  dispatch-Untouched op_write_file t r s e = forward-Untouched t r s
  dispatch-Untouched op_unlink t r s e = forward-Untouched t r s
  dispatch-Untouched op_mkdir t r s e = forward-Untouched t r s
  dispatch-Untouched op_setattr t r s e = forward-Untouched t r s
  dispatch-Untouched op_rename t r s e = rename-Untouched t r s
  dispatch-Untouched op_open t r s e = open-Untouched t r s
  dispatch-Untouched op_create t r s e = open-Untouched t r s
  dispatch-Untouched _ t r s e = cc

  -- A request that names its file by a path which routes local sends nothing to the executor, and
  -- does not dial it.
  pub handle_stays_local :
      (t : Table) (r : Request) (s : Session h k)
      → names_path r.op ≡ true
      → is_remote t r.path ≡ false
      → ((handle t r s).1.link ≡ s.link) × ((handle t r s).1.connected ≡ s.connected)
  unfolding handle
  handle_stays_local t r s e side =
      subst (λ b. Untouched b s (handle t r s).1) side (dispatch-Untouched r.op t r s e)

  -- A request that names its file by a path which routes remote does not touch the local file
  -- service.
  pub handle_stays_remote :
      (t : Table) (r : Request) (s : Session h k)
      → names_path r.op ≡ true
      → is_remote t r.path ≡ true
      → (handle t r s).1.local ≡ s.local
  unfolding handle
  handle_stays_remote t r s e side =
      subst (λ b. Untouched b s (handle t r s).1) side (dispatch-Untouched r.op t r s e)

  -- A rename between the sides is refused with EXDEV, and neither side sees it; on one side it is
  -- passed on.
  pub handle_rename :
      (t : Table) (r : Request) (s : Session h k)
      → r.op ≡ op_rename
      → handle t r s ≡ (
          if same_side (is_remote t r.path) (is_remote t r.path2)
          then on_side (is_remote t r.path) r s
          else (errno_response (neg exdev), s))
  handle_rename t r s e = handle-dispatch t r s e ∙ unfold rename forward_by_path in refl
