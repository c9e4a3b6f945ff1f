-- ===== src/Adapter/Launch/Scrubbed.antt =====
-- What the adapter puts into the environment of the agent, the executor takes out of that of a child.
use remote_adapter.Prelude.{
  ◌≡◌, ◌∙◌, refl, ap, sym, List, [], ◌∷◌, ◌++◌, Bytes, codes, cut_prefix, append-nil, Bool-cases,
  inl, inr,
}
use remote_adapter.Prelude.FilePath.{is_empty}
use remote_adapter.Subprocess.Child.{is_injected, scrub_injection_env}
use remote_adapter.Adapter.Launch.{
  Platform, darwin, linux, other_platform, LaunchConfig, Command, built, wiring, launch_env,
  built_for, build_command,
}

scrub-append :
    (xs ys : List Bytes)
    → scrub_injection_env (xs ++ ys) ≡ scrub_injection_env xs ++ scrub_injection_env ys
unfolding scrub_injection_env
scrub-append [] ys = refl
scrub-append (x ∷ xs) ys = elim (Bool-cases (is_injected x)) [
  | inl bad ↦ rw bad (scrub-append xs ys)
  | inr good ↦ rw good (ap (◌∷◌ x) (scrub-append xs ys))
]

scrub-wiring : (c : LaunchConfig) → scrub_injection_env (wiring c) ≡ []
unfolding scrub_injection_env cut_prefix
scrub-wiring c = refl

scrub-dylib : (d : Bytes) → scrub_injection_env ((codes "DYLD_INSERT_LIBRARIES=" ++ d) ∷ []) ≡ []
unfolding scrub_injection_env cut_prefix
scrub-dylib d = refl

scrub-launch_env :
    (own : List Bytes) (c : LaunchConfig)
    → scrub_injection_env (launch_env own c)
      ≡ scrub_injection_env own ++ scrub_injection_env c.extra_env
scrub-launch_env own c =
    scrub-append (own ++ wiring c) c.extra_env
    ∙ ap (λ e. e ++ scrub_injection_env c.extra_env)
        (scrub-append own (wiring c)
          ∙ ap (λ e. scrub_injection_env own ++ e) (scrub-wiring c)
          ∙ append-nil (scrub_injection_env own))

same : {a b : Command} → built a ≡ built b → a ≡ b
same e = cc

built_for-scrub :
    (p : Platform) (env : List Bytes) (c : LaunchConfig) (cmd : Command)
    → built_for p env c ≡ built cmd
    → scrub_injection_env cmd.env ≡ scrub_injection_env env
built_for-scrub other_platform env c cmd e = cc
built_for-scrub darwin env c cmd e = elim (Bool-cases (is_empty c.dylib_path)) [
  | inl blank ↦ cc (rw blank at e)
  | inr given ↦
      ap (λ x. scrub_injection_env x.env) (sym (same (rw given at e)))
      ∙ scrub-append env _
      ∙ ap (λ x. scrub_injection_env env ++ x) (scrub-dylib c.dylib_path)
      ∙ append-nil (scrub_injection_env env)
]
built_for-scrub linux env c cmd e = elim (Bool-cases (is_empty c.supervisor_path)) [
  | inl blank ↦ cc (rw blank at e)
  | inr given ↦ ap (λ x. scrub_injection_env x.env) (sym (same (rw given at e)))
]

-- Whatever the adapter adds to the environment of the agent for the interceptor and the proxy, the
-- executor drops from that of a child which inherits it: what is left is what it leaves of the adapter's
-- own environment and of the extra entries.
pub scrub-build_command :
    (p : Platform) (own : List Bytes) (c : LaunchConfig) (cmd : Command)
    → build_command p own c ≡ built cmd
    → scrub_injection_env cmd.env ≡ scrub_injection_env own ++ scrub_injection_env c.extra_env
unfolding build_command
scrub-build_command p own c cmd e = elim (Bool-cases (is_empty c.target_path)) [
  | inl blank ↦ cc (rw blank at e)
  | inr given ↦ built_for-scrub p (launch_env own c) c cmd (rw given at e) ∙ scrub-launch_env own c
]
