-- ===== src/Adapter/Session/Lifetime.antt =====
-- A file through a session: opened, used across other requests, closed.
use remote_adapter.Prelude.{
  ℕ, ◌+◌, ◌%◌, ◌^◌, ◌<◌, ◌≡◌, ◌≢◌, ◌⊎◌, ◌∙◌, refl, ap, Bool, true, false, none, some, List, [], ◌∷◌,
  length, All, arith, ◌==◌, inl, inr, if◌then◌else◌,
}
use remote_adapter.Prelude.Int.{is_zero}
use remote_adapter.Prelude.Table.{lookup, insert, lookup-insert, lookup_above}
use remote_adapter.Protocol.Types.{
  op_open, op_create, op_pread, op_pwrite, op_close, Request, Response,
}
use remote_adapter.Routing.{Table, is_remote}
use remote_adapter.Executor.Host.{Host}
use remote_adapter.Adapter.Link.{Link}
use remote_adapter.Adapter.Session.Sides.{handle-dispatch}
use remote_adapter.Adapter.Session.Handles.{
  IsValid, handle-IsValid, handle_keeps_ref, handle-next, on_side-next, on_side-handles,
}
use remote_adapter.Adapter.Session.{
  Session, HandleRef, on_side, wrapped, open_path, by_handle, handle, is_close,
}

abbrev pub Opens : Request → Type 0
Opens r = (r.op ≡ op_open) ⊎ (r.op ≡ op_create)

abbrev pub Uses : Request → Type 0
Uses q = (q.op ≡ op_pread) ⊎ (q.op ≡ op_pwrite)

-- The request does not close the handle.
abbrev pub Spares : ℕ → Request → Type 0
Spares j r = (r.op ≢ op_close) ⊎ (r.handle ≢ j)

module _ {h : Host} {k : Link} where
  -- The requests of a connection, one after the other.
  unfoldable pub run : Table → List Request → Session h k → Session h k
  run t [] s = s
  run t (r ∷ rs) s = run t rs (handle t r s).1

  handle-open :
      (t : Table) (r : Request) (s : Session h k) → Opens r → handle t r s ≡ open_path t r s
  handle-open t r s (inl e) = handle-dispatch t r s e
  handle-open t r s (inr e) = handle-dispatch t r s e

  by_handle-use :
      (q : Request) (s : Session h k) {ref : HandleRef}
      → is_close q.op ≡ false
      → lookup q.handle s.handles ≡ some ref
      → by_handle q s ≡ on_side ref.remote (record q { handle = ref.real }) s
  unfolding by_handle
  by_handle-use q s o live = simp (o, live)

  pub handle-use :
      (t : Table) (q : Request) (s : Session h k) {ref : HandleRef}
      → Uses q
      → lookup q.handle s.handles ≡ some ref
      → handle t q s ≡ on_side ref.remote (record q { handle = ref.real }) s
  handle-use t q s (inl o) live = handle-dispatch t q s o ∙ by_handle-use q s (ap is_close o) live
  handle-use t q s (inr o) live = handle-dispatch t q s o ∙ by_handle-use q s (ap is_close o) live

  run_keeps_ref :
      (t : Table) (rs : List Request) (s : Session h k) (j : ℕ) (ref : HandleRef)
      → IsValid s
      → s.next + length rs < 2 ^ 64
      → lookup j s.handles ≡ some ref
      → All (Spares j) rs
      → lookup j (run t rs s).handles ≡ some ref
  unfolding run
  run_keeps_ref t [] s j ref v room live spared = live
  run_keeps_ref t (r ∷ rs) s j ref v room live spared =
      run_keeps_ref t rs (handle t r s).1 j ref (handle-IsValid t r s v (omega arith))
        (omega (arith, handle-next t r s (omega arith)))
        (handle_keeps_ref t r s j ref v live spared.0) spared.1

  wrapped_good :
      (side : Bool) (s u : Session h k) (a : Response)
      → u.next ≡ s.next
      → u.handles ≡ s.handles
      → is_zero a.error ≡ true
      → wrapped side (a, u) ≡ (
        record a { handle = s.next },
        record u {
          handles = insert s.next (record { remote = side; real = a.handle }) s.handles;
          next = (s.next + 1) % 2 ^ 64;
        },
      )
  wrapped_good side s u a n e good = simp good (
      ap
        (λ i. (
          record a { handle = i },
          record u { handles = insert i ref u.handles; next = (i + 1) % 2 ^ 64 },
        ))
        n
      ∙ ap
          (λ m. (
            record a { handle = s.next },
            record u { handles = insert s.next ref m; next = (s.next + 1) % 2 ^ 64 },
          ))
          e)
    where
      ref : HandleRef
      ref = record { remote = side; real = a.handle }

  -- What an `OpOpen` or `OpCreate` does in a valid session where its side succeeds: the answer is
  -- the side's under a handle that was not live, which from then on stands for the side's own
  -- handle; every other handle is as it was.
  pub handle_gives :
      (t : Table) (r : Request) (s : Session h k)
      → IsValid s
      → Opens r
      → is_zero (on_side (is_remote t r.path) r s).0.error ≡ true
      → let side = is_remote t r.path in
        let a = (on_side side r s).0 in
        let (b, u) = handle t r s in
        (b ≡ record a { handle = s.next })
        × (lookup s.next s.handles ≡ none)
        × ((j : ℕ)
            → lookup j u.handles ≡ (
                if s.next == j
                then some (record { remote = side; real = a.handle })
                else lookup j s.handles))
  handle_gives t r s v o good = rw (handle-open t r s o) (
      rw opened (
        refl,
        lookup_above s.next s.next s.handles v.below (omega arith),
        λ j. lookup-insert s.next j _ s.handles,
      ))
    where
      side : Bool
      side = is_remote t r.path

      opened : open_path t r s ≡ (
        record (on_side side r s).0 { handle = s.next },
        record (on_side side r s).1 {
          handles =
              insert s.next
                (record { remote = side; real = (on_side side r s).0.handle })
                s.handles;
          next = (s.next + 1) % 2 ^ 64;
        },
      )
      opened =
          unfold open_path in
          wrapped_good side s (on_side side r s).1 (on_side side r s).0 (on_side-next side r s)
            (on_side-handles side r s) good

  -- A file that a session opened stays usable, on the side that opened it and under that side's
  -- handle, however many requests come between that do not close it: where the session is valid, its
  -- handle counter does not wrap on the way, the open succeeded on its side, and the later request
  -- reads or writes the handle that the open answered.
  pub open_then_use :
      (t : Table) (r : Request) (rs : List Request) (q : Request) (s : Session h k)
      → IsValid s
      → s.next + length rs + 1 < 2 ^ 64
      → Opens r
      → is_zero (on_side (is_remote t r.path) r s).0.error ≡ true
      → All (Spares s.next) rs
      → Uses q
      → q.handle ≡ (handle t r s).0.handle
      → let side = is_remote t r.path in
        let u = run t rs (handle t r s).1 in
        handle t q u ≡ on_side side (record q { handle = (on_side side r s).0.handle }) u
  open_then_use t r rs q s v room o good spared uses e =
      let opened = handle_gives t r s v o good in
      handle-use t q (run t rs (handle t r s).1) {ref = ref} uses (
        rw (e ∙ ap (λ a. a.handle) opened.0) (
          run_keeps_ref t rs (handle t r s).1 s.next ref (handle-IsValid t r s v (omega arith))
            (omega (arith, handle-next t r s (omega arith))) (opened.2 s.next ∙ ground arith)
            spared))
    where
      ref : HandleRef
      ref = record {
        remote = is_remote t r.path;
        real = (on_side (is_remote t r.path) r s).0.handle;
      }
