-- ===== src/Adapter/Conn/Rounds.antt =====
-- The loop of a connection comes to its end.
use remote_adapter.Prelude.{
  ℕ, zero, suc, ◌+◌, ◌<◌, ◌≡◌, refl, ap, Option, some, [], Bytes, length, ◌++◌, arith,
}
use remote_adapter.Protocol.Types.{Error, Result, ok, err, Request}
use remote_adapter.Protocol.Requests.{read_request}
use remote_adapter.Protocol.Requests.Consumes.{read_request-lt}
use remote_adapter.Protocol.Responses.{write_response}
use remote_adapter.Routing.{Table}
use remote_adapter.Executor.Host.{Host}
use remote_adapter.Adapter.Link.{Link}
use remote_adapter.Adapter.Session.{Session, new_session, handle, close}
use remote_adapter.Adapter.Conn.{conn_loop, handled, sent_back, with_out, closed_at_end, serve_conn}

module _ {h : Host} {k : Link} (t : Table) where
  -- A connection that delivers these bytes is served to its end: up to the request that cannot be read,
  -- or the response that cannot be framed.
  pub data Ends : Bytes → Session h k → Bytes → Session h k → Type 0 where
    unread :
        {input : Bytes} {s : Session h k} {e : Error}
        → read_request input ≡ err e
        → Ends input s [] s
    unframed :
        {input rest : Bytes} {s : Session h k} {r : Request} {e : Error}
        → read_request input ≡ ok (r, rest)
        → write_response r.op (handle t r s).0 ≡ err e
        → Ends input s [] (handle t r s).1
    answered :
        {input rest out outs : Bytes} {s u : Session h k} {r : Request}
        → read_request input ≡ ok (r, rest)
        → write_response r.op (handle t r s).0 ≡ ok out
        → Ends rest (handle t r s).1 outs u
        → Ends input s (out ++ outs) u

  -- The loop has come to its end.
  pub record HasEnded (input : Bytes) (s : Session h k) (got : Option (Bytes × Session h k))
      : Type 0 where
    pub out : Bytes
    pub last : Session h k
    pub given : got ≡ some (out, last)
    pub ends : Ends input s out last

module _ (h : Host) (k : Link) (t : Table) (fuel : ℕ) where
  abbrev Later : Type 0
  Later =
      (input : Bytes) (s : Session h k)
      → length input < fuel
      → HasEnded t input s (conn_loop t fuel input s)

  sent_back-HasEnded :
      Later
      → (input rest : Bytes) (s : Session h k) (r : Request) (q : Result Bytes) → length rest < fuel
      → read_request input ≡ ok (r, rest)
      → write_response r.op (handle t r s).0 ≡ q
      → HasEnded t input s (sent_back (conn_loop t fuel rest) q (handle t r s).1)
  sent_back-HasEnded later input rest s r (err e) shorter f g = record {
    out = [];
    last = (handle t r s).1;
    given = refl;
    ends = unframed f g;
  }
  sent_back-HasEnded later input rest s r (ok out) shorter f g =
      let end = later rest (handle t r s).1 shorter in
      record {
        out = out ++ end.out;
        last = end.last;
        given = ap (with_out out) end.given;
        ends = answered f g end.ends;
      }

  handled-HasEnded :
      Later
      → (input : Bytes) (s : Session h k) (q : Result (Request × Bytes)) → length input < suc fuel
      → read_request input ≡ q
      → HasEnded t input s (handled t (conn_loop t fuel) q s)
  handled-HasEnded later input s (err e) enough f = record {
    out = [];
    last = s;
    given = refl;
    ends = unread f;
  }
  handled-HasEnded later input s (ok (r, rest)) enough f =
      sent_back-HasEnded later input rest s r (write_response r.op (handle t r s).0)
        (omega (arith, read_request-lt input rest r f)) f refl

module _ {h : Host} {k : Link} (t : Table) where
  conn_loop-HasEnded :
      (fuel : ℕ) (input : Bytes) (s : Session h k)
      → length input < fuel
      → HasEnded t input s (conn_loop t fuel input s)
  unfolding conn_loop
  conn_loop-HasEnded zero input s enough = absurd (omega arith)
  conn_loop-HasEnded (suc fuel) input s enough =
      handled-HasEnded h k t fuel (conn_loop-HasEnded fuel) input s (read_request input) enough refl

  -- A connection is served to its end: whatever bytes the interceptor sends before it hangs up, the loop
  -- stops, at the request that cannot be read or the response that cannot be framed, having answered every
  -- request before it in the state that the one before left; then the session is closed.
  pub serve_conn-ends :
      (input : Bytes) (w : h.World) (l : k.State)
      → (out : Bytes) × (s : Session h k) × (serve_conn t input w l ≡ some (out, close s))
        × Ends t input (new_session w l) out s
  unfolding serve_conn
  serve_conn-ends input w l =
      let end = conn_loop-HasEnded (length input + 1) input (new_session w l) (omega arith) in
      (end.out, end.last, ap closed_at_end end.given, end.ends)
