-- ===== src/Tests/Spawns.antt =====
-- Runs of a subprocess from the proxy to the executor and back.
use remote_adapter.Prelude.{◌++◌, true, ◌≡◌, refl, false, none, some, List, [], ◌∷◌, codes, arith}
use remote_adapter.Prelude.Int.{pos, negsuc}
use remote_adapter.Protocol.Types.{ok}
use remote_adapter.Subprocess.Interleaving.{none_left, from_left, from_right, concat}
use remote_adapter.Subprocess.Frames.{Json, SpawnRequest, tag_stdout, tag_stderr}
use remote_adapter.Subprocess.Proxy.{pump}
use remote_adapter.Subprocess.Child.{Lookups, exit_error}
use remote_adapter.Subprocess.Control.{
  control_loop, nothing_given, Event, signalled, typed, input_ended, stdin_pump, control_stream,
}
use remote_adapter.Subprocess.Control.Delivery.{control_loop-control_stream}
use remote_adapter.Subprocess.Service.{ExecHost, executor_end, bridge, ProxyHost, spawn_proxy}
use remote_adapter.Subprocess.Service.Remote.{spawn_proxy-serve_exec}

-- Two reads, one of them empty, around an interrupt.
abbrev events : List Event
events = typed (codes "y") ∷ signalled (pos 2) ∷ input_ended ∷ []

control_loop-control_stream_example :
    control_loop 3 (control_stream events ++ codes "?") nothing_given
    ≡ record { input = codes "y"; open_input = false; signals = pos 2 ∷ [] }
unfolding stdin_pump concat control_loop
control_loop-control_stream_example =
    control_loop-control_stream (pos 2 ∷ []) (codes "y" ∷ [] ∷ []) events 0 (codes "?")
      (omega arith, tt) (omega arith, (omega arith, tt))
      (from_right (from_left (from_right none_left)))

abbrev executor_host : ExecHost
executor_host = record {
  lookups = record { present = λ p. false; look_path = λ p. none };
  own_env = [];
  embedded_rg = [];
  start = λ c g. some ((tag_stderr, codes "?") ∷ (tag_stdout, g.input) ∷ [], exit_error (negsuc 0));
}

abbrev asked : SpawnRequest
asked = record { path = codes "/bin/cat"; argv = codes "cat" ∷ []; cwd = codes "/w"; env = [] }

-- JSON that has one document.
abbrev one_request : Json
one_request = record { marshal = λ r. ok (codes "{}"); unmarshal = λ b. some asked }

abbrev proxy_host : Json → ProxyHost
proxy_host j = record {
  sock = codes "/s";
  cwd = codes "/w";
  env = [];
  events = events;
  dial = λ s. some (bridge (some (executor_end j executor_host)));
  takes = λ b. true;
}

spawn_proxy-serve_exec_example :
    spawn_proxy one_request (proxy_host one_request) (codes "/bin/cat" ∷ codes "cat" ∷ [])
    ≡ record { out = codes "y"; err_out = codes "?"; status = 255 }
unfolding stdin_pump concat pump remote_adapter.Subprocess.Child.exit_code
spawn_proxy-serve_exec_example =
    spawn_proxy-serve_exec one_request (proxy_host one_request) executor_host (codes "/bin/cat")
      (codes "cat") [] (codes "{}") (pos 2 ∷ []) (codes "y" ∷ [] ∷ []) (codes "y" ∷ [])
      (codes "?" ∷ []) ((tag_stderr, codes "?") ∷ (tag_stdout, codes "y") ∷ [])
      (exit_error (negsuc 0)) refl refl refl refl (omega arith) refl (omega arith, tt)
      (omega arith, (omega arith, tt)) (from_right (from_left (from_right none_left))) refl
      (omega arith, tt) (omega arith, tt) (from_right (from_left none_left)) (omega arith)
