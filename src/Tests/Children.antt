-- ===== src/Tests/Children.antt =====
-- Runs of the stream of a subprocess and of what the executor starts.
use remote_adapter.Prelude.{
  ◌≡◌, refl, ℕ, false, none, List, [], ◌∷◌, Bytes, codes, All, arith, equal, cut_prefix,
}
use remote_adapter.Prelude.Int.{negsuc}
use remote_adapter.Prelude.FilePath.{base}
use remote_adapter.Subprocess.Frames.{tag_stdout, tag_stderr}
use remote_adapter.Subprocess.Proxy.{proxy, pump, executor_stream}
use remote_adapter.Subprocess.Proxy.Delivery.{proxy-executor_stream}
use remote_adapter.Subprocess.Interleaving.{none_left, from_left, from_right, concat}
use remote_adapter.Subprocess.Child.{Lookups, resolve_bin_path, child_env}
use remote_adapter.Subprocess.Child.Environment.{Clean, child_env-Clean}

-- Two reads of the output around one of the errors, and an exit code of -1.
abbrev chunks : List (ℕ × Bytes)
chunks = (tag_stdout, codes "a") ∷ (tag_stderr, codes "oops") ∷ (tag_stdout, codes "b") ∷ []

proxy-executor_stream_example :
    proxy (executor_stream chunks (negsuc 0))
    ≡ record { out = codes "ab"; err_out = codes "oops"; status = 255 }
unfolding pump concat
proxy-executor_stream_example =
    proxy-executor_stream (codes "a" ∷ [] ∷ codes "b" ∷ []) (codes "oops" ∷ []) chunks (negsuc 0)
      (omega arith, (omega arith, (omega arith, tt))) (omega arith, tt) (omega arith)
      (from_left (from_right (from_left none_left)))

abbrev own_env : List Bytes
own_env = codes "RCC_ADAPTER_SOCK=/s" ∷ codes "PATH=/bin" ∷ codes "HOME=/h" ∷ []

child_env-Clean_example : All Clean (child_env own_env [] (codes "/rg"))
child_env-Clean_example = child_env-Clean own_env [] (codes "/rg")

child_env_run :
    child_env own_env [] (codes "/rg")
    ≡ codes "PATH=/bin:/rg" ∷ codes "HOME=/h" ∷ codes "RCC_EXECUTOR=1" ∷ []
unfolding child_env cut_prefix
child_env_run = refl

-- A host without ripgrep of its own.
abbrev bare_host : Lookups
bare_host = record { present = λ p. false; look_path = λ p. none }

rg_is_bundled :
    resolve_bin_path bare_host (codes "/opt/claude") (codes "rg" ∷ []) (codes "/e/rg")
    ≡ codes "/e/rg"
unfolding resolve_bin_path base equal
rg_is_bundled = refl
