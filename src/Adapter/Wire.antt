-- ===== src/Adapter/Wire.antt =====
-- The two ends together: a session whose link is a stream that delivers every byte, in order, to the
-- loop of internal/executor/executor.go and back.
use remote_adapter.Prelude.{
  ◌+◌, ◌≡◌, ◌∙◌, sym, ap, Bool, true, false, Option, none, some, [], ◌++◌, Bytes, length,
  append-nil, arith, if◌then◌else◌,
}
use remote_adapter.Protocol.Types.{Result, ok, err, Request, Response}
use remote_adapter.Protocol.Requests.{write_request}
use remote_adapter.Protocol.Requests.Shape.{sent, InRange}
use remote_adapter.Protocol.Responses.{write_response, read_response}
use remote_adapter.Protocol.Responses.Shape.{answered}
use remote_adapter.Protocol.Responses.Shape as ResponseShape
use remote_adapter.Protocol.Responses.RoundTrip.{read_response-write_response}
use remote_adapter.Executor.Host.{Host}
use remote_adapter.Executor.Fs.{Service, new_service, close_all, serve}
use remote_adapter.Executor.Stream.{serve_loop}
use remote_adapter.Executor.Stream.Serving.{idle, answering, unsent, framed, serve_loop-Served}
use remote_adapter.Adapter.Link.{Link}
use remote_adapter.Adapter.Session.{Session, remote_rpc, relay, relayed, received, dialed}

-- The executor's end of a stream, and what it has written that is yet to be read.
pub record Peer (h : Host) : Type 0 where
  pub service : Service h
  pub pending : Bytes

abbrev pub delivered : {h : Host} → Peer h → Bytes × Service h → Bool × Peer h
delivered p (out, t) = (true, record { service = t; pending = p.pending ++ out })

abbrev pub deliver : {h : Host} → Peer h → Result Bytes → Bool × Peer h
deliver p (err e) = (false, p)
deliver p (ok w) = delivered p (serve_loop (length w + 2) w p.service)

abbrev pub taken : {h : Host} → Peer h → Result (Response × Bytes) → Option Response × Peer h
taken p (err e) = (none, p)
taken p (ok (a, rest)) = (some a, record p { pending = rest })

-- A stream that is dialed reaches a file service of its own.
abbrev pub wire_link : Host → Link
wire_link h = record {
  State = Peer h;
  dial = λ p. (true, record { service = new_service p.service.world; pending = [] });
  write_kind = λ p. (true, p);
  shut = λ p. record { service = close_all p.service; pending = [] };
  send = λ r p. deliver p (write_request r);
  receive = λ o p. taken p (read_response o p.pending);
}

module _ {h : Host} where
  pub deliver-request :
      {r : Request} {w out : Bytes} {a : Response} {b : Service h} (p : Peer h)
      → p.pending ≡ []
      → InRange r
      → write_request r ≡ ok w
      → serve (sent r.op r) p.service ≡ (a, b)
      → write_response r.op a ≡ ok out
      → deliver p (write_request r) ≡ (true, record { service = b; pending = out })
  deliver-request {r} {w} {out} {a} {b} p e range f g o =
      ap (deliver p) f
      ∙ ap (delivered p) served
      ∙ ap (λ x. (true, record { service = b; pending = x ++ out })) e
    where
      served : serve_loop (length w + 2) w p.service ≡ (out, b)
      served =
          ap (λ x. serve_loop (length w + 2) x p.service) (sym (append-nil w))
          ∙ serve_loop-Served (length w + 2) (framed range f unsent) (answering g o idle)
              (omega arith)
          ∙ ap (λ x. (x, b)) (append-nil out)

  -- An operation that the adapter relays is the operation of the executor's file service: on a stream
  -- that is there, with nothing of an earlier answer left on it, the adapter gets what the service
  -- answers, as its op sends it, and the service is as the operation leaves it. The numbers of the
  -- request and of the answer must be in the range of their types, and both must fit a frame.
  pub remote_rpc-serve :
      (r : Request) (s : Session h (wire_link h)) {w out : Bytes} {a : Response} {b : Service h}
      → s.connected ≡ true
      → s.link.pending ≡ []
      → InRange r
      → write_request r ≡ ok w
      → serve (sent r.op r) s.link.service ≡ (a, b)
      → ResponseShape.InRange a
      → write_response r.op a ≡ ok out
      → remote_rpc r s ≡ (answered r.op a, record s { link = record { service = b; pending = [] } })
  unfolding remote_rpc
  remote_rpc-serve r s {w} {out} {a} {b} there e range f g range' o =
      ap (λ c. if c then relay r s else dialed r s ((wire_link h).dial s.link)) there
      ∙ ap (relayed r s) (deliver-request s.link e range f g o)
      ∙ ap (λ x. received s (taken (record { service = b; pending = out }) x)) back
    where
      back : read_response r.op out ≡ ok (answered r.op a, [])
      back =
          ap (read_response r.op) (sym (append-nil out))
          ∙ read_response-write_response r.op a out [] range' o
