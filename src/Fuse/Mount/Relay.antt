-- ===== src/Fuse/Mount/Relay.antt =====
-- A call of the mount that the adapter relays to the executor.
use remote_adapter.Prelude.{◌≡◌, ◌∙◌, refl, ap, Bool, true, false, ◌&&◌, [], Bytes, if◌then◌else◌}
use remote_adapter.Prelude.Int.{neg}
use remote_adapter.Protocol.Types.{
  Op, op_stat, op_write_file, op_readdir, op_unlink, op_mkdir, op_rename, op_setattr, Request,
  Response, ok, errno_response,
}
use remote_adapter.Protocol.Requests.{write_request}
use remote_adapter.Protocol.Requests.Shape.{sent, InRange}
use remote_adapter.Protocol.Requests.Relayed.{sent-sent, sent-op, sent-InRange, write_request-sent}
use remote_adapter.Protocol.Responses.{write_response}
use remote_adapter.Protocol.Responses.Shape.{answered}
use remote_adapter.Protocol.Responses.Shape as ResponseShape
use remote_adapter.Protocol.Responses.Relayed.{
  answered-answered, answered-InRange, write_response-answered,
}
use remote_adapter.Routing.{Table, is_remote}
use remote_adapter.Executor.Host.{Host}
use remote_adapter.Executor.Fs.{Service, serve}
use remote_adapter.Adapter.Session.{
  Session, remote_rpc, on_side, forward_by_path, rename, same_side, handle, exdev,
}
use remote_adapter.Adapter.Wire.{wire_link, remote_rpc-serve}
use remote_adapter.Fuse.Client.{Client, call}
use remote_adapter.Fuse.Mount.{Peer, conn_link, call-handle}

-- The request names its file by a path, opens nothing, and every path of it routes remote.
abbrev pub relays : Table → Op → Request → Bool
relays t op_stat r = is_remote t r.path
relays t op_readdir r = is_remote t r.path
relays t op_write_file r = is_remote t r.path
relays t op_unlink r = is_remote t r.path
relays t op_mkdir r = is_remote t r.path
relays t op_setattr r = is_remote t r.path
relays t op_rename r = is_remote t r.path && is_remote t r.path2
relays t _ r = false

module _ {h : Host} where
  -- Behind a connection that is open: its stream and the one to the executor are there, and nothing of
  -- an earlier answer is left on them.
  pub record IsLive (up : Bool) (p : Peer h (wire_link h)) : Type 0 where
    pub opened : up ≡ true
    pub clear : p.pending ≡ []
    pub dialed : p.session.connected ≡ true
    pub drained : p.session.link.pending ≡ []

  abbrev pub executor : Peer h (wire_link h) → Service h
  executor p = p.session.link.service

  abbrev pub with_session : Session h (wire_link h) → Peer h (wire_link h)
  with_session s = record { session = s; pending = [] }

  abbrev pub with_executor : Peer h (wire_link h) → Service h → Peer h (wire_link h)
  with_executor p b =
      with_session (record p.session { link = record { service = b; pending = [] } })

both-true : (b c : Bool) → (b && c) ≡ true → (b ≡ true) × (c ≡ true)
both-true true c e = (refl, e)
both-true false c e = cc e

module _ {h : Host} (t : Table) where
  -- A call whose request the session relays, as itself or under another handle.
  pub call-relayed :
      (r q : Request) (c : Client (conn_link h (wire_link h) t)) {w v out : Bytes} {a : Response}
      {b : Service h}
      → IsLive c.connected c.link
      → q.op ≡ r.op
      → handle t (sent r.op r) c.link.session ≡ remote_rpc q c.link.session
      → InRange r
      → InRange q
      → write_request r ≡ ok w
      → write_request q ≡ ok v
      → serve (sent q.op q) (executor c.link) ≡ (a, b)
      → ResponseShape.InRange a
      → write_response r.op a ≡ ok out
      → call r c ≡ (answered r.op a, record c { link = with_executor c.link b })
  call-relayed r q c {w} {v} {out} {a} {b} live same e range range' f g served back o =
      call-handle t r c live.opened live.clear range f handled (answered-InRange r.op a back)
        (write_response-answered r.op a ∙ o)
      ∙ ap (λ x. (x, record c { link = with_executor c.link b })) (answered-answered r.op a)
    where
      handled :
          handle t (sent r.op r) c.link.session
          ≡ (answered r.op a, record c.link.session { link = record { service = b; pending = [] } })
      handled =
          e
          ∙ remote_rpc-serve q c.link.session live.dialed live.drained range' g served back
              (ap (λ x. write_response x a) same ∙ o)
          ∙ ap
              (λ x. (
                answered x a,
                record c.link.session { link = record { service = b; pending = [] } },
              ))
              same

  forward :
      (r : Request) (s : Session h (wire_link h))
      → is_remote t r.path ≡ true
      → forward_by_path t r s ≡ remote_rpc r s
  unfolding forward_by_path
  forward r s e = ap (λ b. on_side b r s) e

  rename_within :
      (r : Request) (s : Session h (wire_link h))
      → (is_remote t r.path ≡ true) × (is_remote t r.path2 ≡ true)
      → rename t (sent op_rename r) s ≡ remote_rpc (sent op_rename r) s
  unfolding rename sent
  rename_within r s (e, f) =
      ap
        (λ b.
          if same_side b (is_remote t r.path2)
          then forward_by_path t (sent op_rename r) s
          else (errno_response (neg exdev), s))
        e
      ∙ ap
          (λ b.
            if b then forward_by_path t (sent op_rename r) s else (errno_response (neg exdev), s))
          f
      ∙ forward (sent op_rename r) s e

  handle-relays :
      (o : Op) (r : Request) (s : Session h (wire_link h))
      → relays t o r ≡ true
      → handle t (sent o r) s ≡ remote_rpc (sent o r) s
  unfolding handle sent
  handle-relays op_stat r s e = forward (sent op_stat r) s e
  handle-relays op_readdir r s e = forward (sent op_readdir r) s e
  handle-relays op_write_file r s e = forward (sent op_write_file r) s e
  handle-relays op_unlink r s e = forward (sent op_unlink r) s e
  handle-relays op_mkdir r s e = forward (sent op_mkdir r) s e
  handle-relays op_setattr r s e = forward (sent op_setattr r) s e
  handle-relays op_rename r s e =
      rename_within r s (both-true (is_remote t r.path) (is_remote t r.path2) e)
  handle-relays _ r s e = cc e

  -- An operation on a path of the mount that routes remote is the operation of the executor's file
  -- service: on streams that are there, with nothing of an earlier answer left on them, the mount gets
  -- what the service answers to the request, as its op sends both, and nothing but the service
  -- changes. The request opens no file, and a rename has both its paths remote; the numbers of the
  -- request and of the answer must be in the range of their types, and both must fit a frame.
  pub call-serve :
      (r : Request) (c : Client (conn_link h (wire_link h) t)) {w out : Bytes} {a : Response}
      {b : Service h}
      → IsLive c.connected c.link
      → relays t r.op r ≡ true
      → InRange r
      → write_request r ≡ ok w
      → serve (sent r.op r) (executor c.link) ≡ (a, b)
      → ResponseShape.InRange a
      → write_response r.op a ≡ ok out
      → call r c ≡ (answered r.op a, record c { link = with_executor c.link b })
  call-serve r c live e range f served back o =
      call-relayed r (sent r.op r) c live (sent-op r.op r) (handle-relays r.op r c.link.session e)
        range (sent-InRange r.op r range) f (write_request-sent r ∙ f)
        (ap (λ q. serve q (executor c.link))
            (ap (λ x. sent x (sent r.op r)) (sent-op r.op r) ∙ sent-sent r.op r)
          ∙ served)
        back o
