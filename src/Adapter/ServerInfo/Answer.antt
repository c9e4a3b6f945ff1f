-- ===== src/Adapter/ServerInfo/Answer.antt =====
-- What the question is answered with.
use remote_adapter.Prelude.{◌≡◌, ◌∙◌, refl, ap, sym, true, some, [], Bytes, arith, append-nil}
use remote_adapter.Prelude.Int.{pos}
use remote_adapter.Protocol.Types.{
  ok, op_code, op_server_info, Response, errno_response, blank_request,
}
use remote_adapter.Protocol.Frame.{write_frame, put_u32}
use remote_adapter.Protocol.Requests.{write_request, request_fields}
use remote_adapter.Protocol.Requests.Shape.{sent, InRange, plain-InRange}
use remote_adapter.Protocol.Responses.{write_response, read_response}
use remote_adapter.Protocol.Responses.Shape.{answered, answer}
use remote_adapter.Protocol.Responses.Shape as ResponseShape
use remote_adapter.Protocol.Responses.RoundTrip.{read_response-write_response}
use remote_adapter.Executor.Host.{Host}
use remote_adapter.Executor.Fs.{new_service, serve}
use remote_adapter.Adapter.Wire.{Peer, wire_link, deliver, taken, deliver-request}
use remote_adapter.Adapter.ServerInfo.{query_server_info, platform_of, after_send}

abbrev info : Host → Response
info h = record (errno_response (pos 0)) { os = h.goos; arch = h.goarch }

module _ (h : Host) where
  abbrev fresh : Peer h → Peer h
  fresh p = record { service = new_service p.service.world; pending = [] }

  blank-InRange : InRange (blank_request op_server_info)
  blank-InRange = plain-InRange op_server_info [] 0 0 (omega arith) (omega arith)

  info-InRange : ResponseShape.InRange (info h)
  info-InRange = record {
    error = omega arith;
    mode = omega arith;
    size = omega arith;
    handle = omega arith;
    mtime = omega arith;
  }

  -- Over a stream to the executor's loop, the question is answered with the operating system and the
  -- architecture of the executor's host, where these fit a frame.
  pub query_server_info-answer :
      (p : Peer h) {out : Bytes}
      → write_response op_server_info (info h) ≡ ok out
      → (query_server_info (wire_link h) p).0 ≡ some (h.goos, h.goarch)
  unfolding query_server_info write_request request_fields write_frame op_code put_u32 sent serve
      answered answer
  query_server_info-answer p {out} framed =
      ap (λ x. (after_send (wire_link h) x).0) sending
      ∙ ap
          (λ x.
            (platform_of (wire_link h)
              (taken (record { service = (fresh p).service; pending = out }) x)).0)
          back
    where
      sending :
          deliver (fresh p) (write_request (blank_request op_server_info))
          ≡ (true, record { service = (fresh p).service; pending = out })
      sending = deliver-request (fresh p) refl blank-InRange refl refl framed

      back : read_response op_server_info out ≡ ok (info h, [])
      back =
          ap (read_response op_server_info) (sym (append-nil out))
          ∙ read_response-write_response op_server_info (info h) out [] info-InRange framed
