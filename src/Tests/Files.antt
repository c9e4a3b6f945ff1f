-- ===== src/Tests/Files.antt =====
-- Runs of the file service, on the stub host.
use remote_adapter.Prelude.{◌≡◌, refl, some, [], ◌∷◌, codes, inl, arith}
use remote_adapter.Prelude.Int.{pos, neg}
use remote_adapter.Prelude.Table.{lookup}
use remote_adapter.Protocol.Types.{
  op_open, op_close, op_pread, op_setattr, Request, errno_response, blank_request,
}
use remote_adapter.Executor.Fs.{
  Service, open_with_mode, serve, serve_stat, serve_setattr, serve_close,
}
use remote_adapter.Executor.Fs.Handles.{
  IsValid, serve-IsValid, serve_keeps_handle, serve_after_close,
}
use remote_adapter.Executor.Fs.Reports.{serve_setattr-attempt, asked_changes, attempt, respond}
use remote_adapter.Tests.Stubs.{stub_host}

abbrev one_file : Service stub_host
one_file = record { next = 2; files = (1, codes "a") ∷ []; world = 5 }

one_file-IsValid : IsValid one_file
one_file-IsValid = record { started = omega arith; below = (omega arith, omega arith, tt) }

abbrev open_b : Request
open_b = record (blank_request op_open) { path = codes "b" }

serve-IsValid_example : IsValid (serve open_b one_file).1
serve-IsValid_example = serve-IsValid open_b one_file one_file-IsValid (omega arith)

serve_keeps_handle_example : lookup 1 (serve open_b one_file).1.files ≡ some (codes "a")
unfolding lookup
serve_keeps_handle_example =
    serve_keeps_handle open_b one_file 1 (codes "a") one_file-IsValid refl (inl (λ e. cc))

abbrev close_one : Request
close_one = record (blank_request op_close) { handle = 1 }

abbrev read_one : Request
read_one = record (blank_request op_pread) { handle = 1; len = 4 }

serve_after_close_example :
    serve read_one (serve close_one one_file).1
    ≡ (errno_response (neg 9), (serve close_one one_file).1)
serve_after_close_example = serve_after_close close_one read_one one_file refl refl (inl refl)

-- A mode and a size to be set, on a path that is not there: the mode fails, and the size is not tried.
abbrev set_mode_and_size : Request
set_mode_and_size = record (blank_request op_setattr) { mask = 3; mode = 0o600; size = pos 8 }

serve_setattr-attempt_example :
    serve_setattr set_mode_and_size one_file
    ≡ respond one_file (attempt (asked_changes stub_host set_mode_and_size) 5)
serve_setattr-attempt_example = serve_setattr-attempt set_mode_and_size one_file

serve_setattr_stops :
    serve_setattr set_mode_and_size one_file
    ≡ (errno_response (neg 2), record one_file { world = 6 })
unfolding serve_setattr remote_adapter.Executor.Fs.to_errno
serve_setattr_stops = refl
