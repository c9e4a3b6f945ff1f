-- ===== src/Fuse/Mount.antt =====
-- The mount on top of the two other parts: the FUSE client's stream is a connection of the adapter, and
-- what the adapter relays goes on a stream to the executor.
pub mod Relay
pub mod Files
pub mod Opened
pub mod Fresh
pub mod Stale
use remote_adapter.Prelude.{
  ◌+◌, ◌≡◌, ◌∙◌, sym, ap, Bool, true, false, Option, none, some, [], ◌++◌, Bytes, length,
  append-nil, arith, if◌then◌else◌,
}
use remote_adapter.Protocol.Types.{Result, ok, err, Request, Response}
use remote_adapter.Protocol.Requests.{write_request}
use remote_adapter.Protocol.Requests.Shape.{sent, InRange}
use remote_adapter.Protocol.Responses.{write_response, read_response}
use remote_adapter.Protocol.Responses.Shape.{answered}
use remote_adapter.Protocol.Responses.Shape as ResponseShape
use remote_adapter.Protocol.Responses.RoundTrip.{read_response-write_response}
use remote_adapter.Routing.{Table}
use remote_adapter.Executor.Host.{Host}
use remote_adapter.Executor.Stream.Serving.{unsent, framed}
use remote_adapter.Adapter.Link.{Link}
use remote_adapter.Adapter.Session.{Session, new_session, handle, close}
use remote_adapter.Adapter.Conn.{conn_loop}
use remote_adapter.Adapter.Conn.Answers.{Handled, no_more, handling, conn_loop-Handled}
use remote_adapter.Fuse.Client.{Client, call, exchange, exchanged, received, dialed}

-- The adapter's end of a connection, and what it has written that is yet to be read.
pub record Peer (h : Host) (k : Link) : Type 0 where
  pub session : Session h k
  pub pending : Bytes

abbrev pub delivered :
    {h : Host} {k : Link} → Peer h k → Option (Bytes × Session h k) → Bool × Peer h k
delivered p none = (false, p)
delivered p (some (out, s)) = (true, record { session = s; pending = p.pending ++ out })

abbrev pub deliver : {h : Host} {k : Link} → Table → Peer h k → Result Bytes → Bool × Peer h k
deliver t p (err e) = (false, p)
deliver t p (ok w) = delivered p (conn_loop t (length w + 2) w p.session)

abbrev pub taken :
    {h : Host} {k : Link} → Peer h k → Result (Response × Bytes) → Option Response × Peer h k
taken p (err e) = (none, p)
taken p (ok (a, rest)) = (some a, record p { pending = rest })

-- A connection that is accepted has a session of its own.
abbrev pub conn_link : Host → Link → Table → Link
conn_link h k t = record {
  State = Peer h k;
  dial = λ p.
      (true, record { session = new_session p.session.local.world p.session.link; pending = [] });
  write_kind = λ p. (true, p);
  shut = λ p. record { session = close p.session; pending = [] };
  send = λ r p. deliver t p (write_request r);
  receive = λ o p. taken p (read_response o p.pending);
}

module _ {h : Host} {k : Link} (t : Table) where
  deliver-request :
      {r : Request} {w out : Bytes} {a : Response} {u : Session h k} (p : Peer h k)
      → p.pending ≡ []
      → InRange r
      → write_request r ≡ ok w
      → handle t (sent r.op r) p.session ≡ (a, u)
      → write_response r.op a ≡ ok out
      → deliver t p (write_request r) ≡ (true, record { session = u; pending = out })
  deliver-request {r} {w} {out} {a} {u} p e range f g o =
      ap (deliver t p) f
      ∙ ap (delivered p) handled
      ∙ ap (λ x. (true, record { session = u; pending = x ++ out })) e
    where
      handled : conn_loop t (length w + 2) w p.session ≡ some (out, u)
      handled =
          ap (λ x. conn_loop t (length w + 2) x p.session) (sym (append-nil w))
          ∙ conn_loop-Handled t (length w + 2) (framed range f unsent) (handling g o no_more)
              (omega arith)
          ∙ ap (λ x. some (x, u)) (append-nil out)

  -- What the mount asks of the adapter is what the adapter's session does: on a stream that is there,
  -- with nothing of an earlier answer left on it, the call gets the session's answer, as its op sends it,
  -- and the session is as the operation leaves it. The numbers of the request and of the answer must be
  -- in the range of their types, and both must fit a frame.
  pub call-handle :
      (r : Request) (c : Client (conn_link h k t)) {w out : Bytes} {a : Response} {u : Session h k}
      → c.connected ≡ true
      → c.link.pending ≡ []
      → InRange r
      → write_request r ≡ ok w
      → handle t (sent r.op r) c.link.session ≡ (a, u)
      → ResponseShape.InRange a
      → write_response r.op a ≡ ok out
      → call r c ≡ (answered r.op a, record c { link = record { session = u; pending = [] } })
  unfolding call
  call-handle r c {w} {out} {a} {u} there e range f g range' o =
      ap (λ b. if b then exchange r c else dialed r c ((conn_link h k t).dial c.link)) there
      ∙ ap (exchanged r c) (deliver-request c.link e range f g o)
      ∙ ap (λ x. received c (taken (record { session = u; pending = out }) x)) back
    where
      back : read_response r.op out ≡ ok (answered r.op a, [])
      back =
          ap (read_response r.op) (sym (append-nil out))
          ∙ read_response-write_response r.op a out [] range' o
