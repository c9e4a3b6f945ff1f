-- ===== src/Protocol/Requests/Cut.antt =====
-- A request that is cut off before its end is never read as one.
use remote_adapter.Prelude.{◌≡◌, ◌≢◌, refl, Option, none, some, [], ◌∷◌, ◌++◌, Bytes, ◌%◌}
use remote_adapter.Protocol.Types.{Op, Request, ok, op_code}
use remote_adapter.Protocol.Frame.{read_frame}
use remote_adapter.Protocol.Frame.Cut.{IsCut, then-IsCut, read_frame-IsCut}
use remote_adapter.Protocol.Requests.{request_fields, frame_fields, write_request, read_request}

-- The part of a request of which `q` is missing.
pub record IsPart (r : Request) (p : Bytes) : Type 0 where
  pub missing : Bytes
  pub some_missing : missing ≢ []
  pub parts : write_request r ≡ ok (p ++ missing)

framed_part :
    (o : Op) (fields : Option Bytes) (p q : Bytes)
    → q ≢ []
    → frame_fields o fields ≡ ok (p ++ q)
    → IsCut (read_frame p)
framed_part o none p q ne e = cc e
framed_part o (some fields) p q ne e =
    read_frame-IsCut ((op_code o % 256) ∷ fields) (p ++ q) p q e refl ne

pub read_request-IsCut : (r : Request) (p : Bytes) → IsPart r p → IsCut (read_request p)
unfolding read_request write_request
read_request-IsCut r p part =
    then-IsCut (read_frame p) _
      (framed_part r.op (request_fields r.op r) p part.missing part.some_missing part.parts)
