-- ===== src/Subprocess/Control.antt =====
-- What goes from the proxy to the child: the goroutines of cmd/rca/spawnproxy.go that forward signals
-- and standard input, and the control loop of `serveExec` in internal/executor/exec.go.
pub mod Delivery
use remote_adapter.Prelude.{
  ℕ, zero, suc, ◌+◌, Bool, true, false, List, [], ◌∷◌, ◌++◌, Bytes, length, ◌==◌, if◌then◌else◌,
}
use remote_adapter.Prelude.Int.{ℤ}
use remote_adapter.Prelude.FilePath.{is_empty}
use remote_adapter.Protocol.Types.{Result, ok, err}
use remote_adapter.Subprocess.Frames.{
  Frame, tag_signal, tag_stdin, write_chunk, write_signal, read_frame, signum,
}

-- A frame that the proxy sends: a signal, a read of its standard input, or the end of that.
pub data Event : Type 0 where
  signalled : ℤ → Event
  typed : Bytes → Event
  input_ended : Event

-- The pump of standard input, on what its reads yield before the end: an empty read writes nothing.
unfoldable pub stdin_pump : List Bytes → List Event
stdin_pump [] = input_ended ∷ []
stdin_pump ([] ∷ reads) = stdin_pump reads
stdin_pump ((c ∷ b) ∷ reads) = typed (c ∷ b) ∷ stdin_pump reads

abbrev pub event_frame : Event → Bytes
event_frame (signalled n) = write_signal n
event_frame (typed b) = write_chunk tag_stdin b
event_frame input_ended = write_chunk tag_stdin []

unfoldable pub control_stream : List Event → Bytes
control_stream [] = []
control_stream (e ∷ events) = event_frame e ++ control_stream events

-- What a child has been given: the bytes on its standard input, whether more can come, and the signals.
pub record Given : Type 0 where
  pub input : Bytes
  pub open_input : Bool
  pub signals : List ℤ

abbrev pub nothing_given : Given
nothing_given = record { input = []; open_input = true; signals = [] }

abbrev pub shut_input : Given → Given
shut_input g = record g { open_input = false }

-- A write on a pipe that was closed fails, and the failure is dropped.
abbrev pub give_input : Bytes → Given → Given
give_input [] g = shut_input g
give_input (c ∷ b) g = if g.open_input then record g { input = g.input ++ (c ∷ b) } else g

-- The switch of the loop; a frame with another tag is skipped.
abbrev pub on_control : Frame → Given → Given
on_control f g =
    if f.tag == tag_signal
    then record g { signals = g.signals ++ (signum f ∷ []) }
    else if f.tag == tag_stdin
    then give_input f.body g
    else g

abbrev pub on_control_read : (Bytes → Given → Given) → Result (Frame × Bytes) → Given → Given
on_control_read rounds (err e) g = shut_input g
on_control_read rounds (ok (f, rest)) g = rounds rest (on_control f g)

-- The loop, up to the end of the stream or a frame that cannot be read, where standard input is closed.
unfoldable pub control_loop : ℕ → Bytes → Given → Given
control_loop zero s g = g
control_loop (suc fuel) s g = on_control_read (control_loop fuel) (read_frame s) g

-- Each round takes five bytes at least.
unfoldable pub control : Bytes → Given
unfolding control_loop
control s = control_loop (length s + 1) s nothing_given
