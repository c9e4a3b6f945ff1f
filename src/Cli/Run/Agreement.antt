-- ===== src/Cli/Run/Agreement.antt =====
-- The agent is told what the adapter does.
use remote_adapter.Prelude.{
  ℕ, ◌≡◌, ◌∙◌, refl, ap, sym, subst, inl, inr, Bool, true, false, Option, none, some, List, [], ◌∷◌,
  ◌++◌, Bytes, codes, cut_prefix, join, append-nil, append_assoc, Bool-cases, either_keeps,
  if◌then◌else◌,
}
use remote_adapter.Prelude.FilePath.{is_empty}
use remote_adapter.Routing.{Table}
use remote_adapter.Adapter.Link.{Link}
use remote_adapter.Adapter.Launch.{
  Platform, darwin, linux, other_platform, LaunchConfig, Command, Built, built, not_built,
  is_darwin, wiring, built_for, build_command,
}
use remote_adapter.Cli.RunArgs.{RunOpts, Parsed, parsed, refused, parse_run_args}
use remote_adapter.Cli.Run.Host.{RunHost, Step, next, leave, check, or_leave, ◌>>=◌}
use remote_adapter.Cli.Run.Wrapped.{injected_env, wrap_mount_namespace, in_namespace}
use remote_adapter.Cli.Run.{
  Ending, left, served, printed, ran, workdir_of, route_table, target_of, with_spawn_proxy,
  with_interceptor, transport_of, dialed, listening, bridge_sock, probe, artifact, interceptor_for,
  injected_args, config_of, or_refused, printed_or_run, launch, serve_or_launch, run, ending,
  after_parse, cmd_run, profile_of,
}

same : {a b : Command} → built a ≡ built b → a ≡ b
same e = cc

built_for-injected_env :
    (p : Platform) (own : List Bytes) (c : LaunchConfig) (cmd : Command)
    → built_for p (own ++ wiring c) c ≡ built cmd
    → cmd.env ≡ own ++ injected_env p c
unfolding injected_env
built_for-injected_env other_platform own c cmd e = cc
built_for-injected_env darwin own c cmd e = elim (Bool-cases (is_empty c.dylib_path)) [
  | inl blank ↦ cc (rw blank at e)
  | inr given ↦ ap (λ x. x.env) (sym (same (rw given at e))) ∙ append_assoc own (wiring c) _
]
built_for-injected_env linux own c cmd e = elim (Bool-cases (is_empty c.supervisor_path)) [
  | inl blank ↦ cc (rw blank at e)
  | inr given ↦ ap (λ x. x.env) (sym (same (rw given at e)))
]

-- The environment that --print-cmd shows is what a command that is built has on top of the adapter's
-- own, entry by entry; where the configuration has no extra entries.
pub build_command-injected_env :
    (p : Platform) (own : List Bytes) (c : LaunchConfig) (cmd : Command)
    → c.extra_env ≡ []
    → build_command p own c ≡ built cmd
    → cmd.env ≡ own ++ injected_env p c
unfolding build_command
build_command-injected_env p own c cmd x e = elim (Bool-cases (is_empty c.target_path)) [
  | inl blank ↦ cc (rw blank at e)
  | inr given ↦ built_for-injected_env p own c cmd (
      ap (λ env. built_for p env c) (sym (ap (λ y. (own ++ wiring c) ++ y) x ∙ append-nil _))
      ∙ rw given at e)
]

-- The value that a process gets for a variable: os/exec keeps the last entry.
unfoldable pub env_value : Bytes → List Bytes → Option Bytes
env_value name [] = none
env_value name (e ∷ es) =
    let rest = env_value name es in elim rest [ some v ↦ some v | none ↦ cut_prefix name e ]

env_value-append :
    (name : Bytes) (xs ys : List Bytes) (v : Bytes)
    → env_value name ys ≡ some v
    → env_value name (xs ++ ys) ≡ some v
unfolding env_value
env_value-append name [] ys v e = e
env_value-append name (x ∷ xs) ys v e = rw (env_value-append name xs ys v e)

-- What a process is told by the variables of a configuration.
abbrev pub Told : List Bytes → LaunchConfig → Type 0
Told env c =
    (env_value (codes "RCC_REMOTE_PREFIXES=") env ≡ some (join (codes ":") c.remote_prefixes))
    × (env_value (codes "RCC_ADAPTER_SOCK=") env ≡ some c.adapter_sock)
    × (env_value (codes "RCC_EXECUTOR_SOCK=") env ≡ some c.executor_sock)

injected_env-Told : (p : Platform) (c : LaunchConfig) → Told (injected_env p c) c
unfolding injected_env env_value cut_prefix
injected_env-Told darwin c = (refl, refl, refl)
injected_env-Told linux c = (refl, refl, refl)
injected_env-Told other_platform c = (refl, refl, refl)

append-Told :
    (own : List Bytes) (p : Platform) (c : LaunchConfig) → Told (own ++ injected_env p c) c
append-Told own p c =
    let (a, b, d) = injected_env-Told p c in
    (env_value-append _ own _ _ a, env_value-append _ own _ _ b, env_value-append _ own _ _ d)

wrap_mount_namespace-env :
    (p : Platform) (self : Option Bytes) (c w : Command) (sock wd : Bytes) (ps : List Bytes)
    → wrap_mount_namespace p self c sock wd ps ≡ some w
    → w.env ≡ c.env
unfolding wrap_mount_namespace in_namespace
wrap_mount_namespace-env linux none c w sock wd ps e = cc
wrap_mount_namespace-env linux (some self) c w sock wd ps e = ap (λ x. x.env) (sym (there e))
  where
    there : {a b : Command} → some a ≡ some b → a ≡ b
    there e = cc
wrap_mount_namespace-env darwin self c w sock wd ps e = ap (λ x. x.env) (sym (there e))
  where
    there : {a b : Command} → some a ≡ some b → a ≡ b
    there e = cc
wrap_mount_namespace-env other_platform self c w sock wd ps e = ap (λ x. x.env) (sym (there e))
  where
    there : {a b : Command} → some a ≡ some b → a ≡ b
    there e = cc

-- Of a process with this environment, where the file operations are served on `sock`: it is told the
-- remote prefixes of the table, that socket for its file operations, and for its subprocesses the one
-- beside it with the ending .exec; and both are listened on.
abbrev pub Agrees : (Bytes → Bool) → Bytes → Table → List Bytes → Type 0
Agrees listen sock t env =
    (env_value (codes "RCC_REMOTE_PREFIXES=") env ≡ some (join (codes ":") t.remote_prefixes))
    × (env_value (codes "RCC_ADAPTER_SOCK=") env ≡ some sock)
    × (env_value (codes "RCC_EXECUTOR_SOCK=") env ≡ some (sock ++ codes ".exec"))
    × (listen sock ≡ true)
    × (listen (sock ++ codes ".exec") ≡ true)

-- What a command that was printed or run was given agrees with the adapter.
abbrev pub IsAgreed : (Bytes → Bool) → Bytes → Ending → Type 0
IsAgreed listen sock (left n) = Unit {0}
IsAgreed listen sock (served t) = Unit {0}
IsAgreed listen sock (printed t argv env) = Agrees listen sock t env
IsAgreed listen sock (ran t c n) = Agrees listen sock t c.env

-- The socket of --adapter-sock, or its default.
abbrev pub sock_of : Parsed RunOpts → Bytes
sock_of (refused e) = []
sock_of (parsed o) = o.adapter_sock

or_leave-next : {A : Type 0} (n : ℕ) (m : Option A) (a : A) → or_leave n m ≡ next a → m ≡ some a
or_leave-next n none a e = cc
or_leave-next n (some b) a e = cc

check-next :
    (a b : Bool) (u : Unit {0}) → (check a >>= (λ u. check b)) ≡ next u → (a ≡ true) × (b ≡ true)
check-next true true u e = (refl, refl)
check-next true false u e = cc
check-next false b u e = cc

module _ (k : Link) (h : RunHost k) where
  -- A step that leaves agrees, whatever it was to go on with.
  steps-IsAgreed :
      {A : Type 0} (sock : Bytes) (m : Step A) (f : A → Step Ending)
      → ((a : A) → m ≡ next a → IsAgreed h.listen sock (ending k h (f a)))
      → IsAgreed h.listen sock (ending k h (m >>= f))
  steps-IsAgreed sock (next a) f q = q a refl
  steps-IsAgreed sock (leave n) f q = tt

  next-sock :
      {o p : RunOpts} (sock : Bytes)
      → o.adapter_sock ≡ sock
      → ◌≡◌ {A = Step RunOpts} (next o) (next p)
      → p.adapter_sock ≡ sock
  next-sock sock same e = ap taken (sym e) ∙ same
    where
      taken : Step RunOpts → Bytes
      taken (next o) = o.adapter_sock
      taken (leave n) = sock

  -- A step that only sets other options keeps the socket.
  set-sock :
      {A : Type 0} (sock : Bytes) (m : Step A) (f : A → RunOpts) (p : RunOpts)
      → ((a : A) → (f a).adapter_sock ≡ sock)
      → (m >>= (λ a. next (f a))) ≡ next p
      → p.adapter_sock ≡ sock
  set-sock sock (next a) f p keeps e = next-sock sock (keeps a) e
  set-sock sock (leave n) f p keeps e = cc

  with_spawn_proxy-sock :
      (o p : RunOpts) → with_spawn_proxy k h o ≡ next p → p.adapter_sock ≡ o.adapter_sock
  with_spawn_proxy-sock o p e = elim (Bool-cases (is_empty o.spawn_proxy)) [
    | inl blank ↦
        set-sock o.adapter_sock (or_leave 1 h.executable) (λ self. record o { spawn_proxy = self })
          p (λ a. refl) (rw blank at e)
    | inr given ↦ next-sock o.adapter_sock refl (rw given at e)
  ]

  interceptor_for-sock :
      (f : Platform) (o p : RunOpts)
      → interceptor_for k h f o ≡ next p
      → p.adapter_sock ≡ o.adapter_sock
  interceptor_for-sock darwin o p e = elim (Bool-cases (is_empty o.dylib)) [
    | inl blank ↦
        set-sock o.adapter_sock (artifact k h) (λ q. record o { dylib = q }) p (λ a. refl)
          (rw blank at e)
    | inr given ↦ next-sock o.adapter_sock refl (rw given at e)
  ]
  interceptor_for-sock linux o p e = elim (Bool-cases (is_empty o.supervisor)) [
    | inl blank ↦
        set-sock o.adapter_sock (artifact k h) (λ q. record o { supervisor = q }) p (λ a. refl)
          (rw blank at e)
    | inr given ↦ next-sock o.adapter_sock refl (rw given at e)
  ]
  interceptor_for-sock other_platform o p e = next-sock o.adapter_sock refl e

  with_interceptor-sock :
      (o p : RunOpts) → with_interceptor k h o ≡ next p → p.adapter_sock ≡ o.adapter_sock
  with_interceptor-sock o p e = elim (Bool-cases o.serve_fs_only) [
    | inl alone ↦
        next-sock o.adapter_sock refl
          (sym (ap (λ b. if b then next o else interceptor_for k h h.platform o) alone) ∙ e)
    | inr other ↦
        interceptor_for-sock h.platform o p
          (sym (ap (λ b. if b then next o else interceptor_for k h h.platform o) other) ∙ e)
  ]

  or_refused-next : (b : Built) (c : Command) → or_refused k h b ≡ next c → b ≡ built c
  or_refused-next (built b) c e = cc
  or_refused-next (not_built x) c e = cc

  module _ (o : RunOpts) (t : Table) (target : Bytes) (args : List Bytes) where
    cfg : LaunchConfig
    cfg = config_of k h o t target args

    told :
        (env : List Bytes)
        → Told env cfg
        → h.listen o.adapter_sock ≡ true
        → h.listen (bridge_sock k h o) ≡ true
        → Agrees h.listen o.adapter_sock t env
    unfolding cfg config_of
    told env (prefixes, sock, bridge) a b = (prefixes, sock, bridge, a, b)

    printed_or_run-IsAgreed :
        (c : Command)
        → c.env ≡ h.own_env ++ injected_env h.platform cfg
        → h.listen o.adapter_sock ≡ true
        → h.listen (bridge_sock k h o) ≡ true
        → IsAgreed h.listen o.adapter_sock (printed_or_run k h o t cfg c)
    printed_or_run-IsAgreed c env a b =
        either_keeps (IsAgreed h.listen o.adapter_sock) o.print_cmd
          (told (injected_env h.platform cfg) (injected_env-Told h.platform cfg) a b)
          (subst (Agrees h.listen o.adapter_sock t) (sym env) (
            told (h.own_env ++ injected_env h.platform cfg) (append-Told h.own_env h.platform cfg) a
              b))

    launch-IsAgreed :
        h.listen o.adapter_sock ≡ true
        → h.listen (bridge_sock k h o) ≡ true
        → IsAgreed h.listen o.adapter_sock (ending k h (launch k h o t cfg))
    unfolding launch cfg config_of
    launch-IsAgreed a b =
        steps-IsAgreed o.adapter_sock (or_refused k h (build_command h.platform h.own_env cfg)) _
          (λ c e. steps-IsAgreed o.adapter_sock (workdir_of k h o) _ (λ wd f.
            steps-IsAgreed o.adapter_sock
              (or_leave 1 (
                wrap_mount_namespace h.platform h.executable c o.adapter_sock wd t.remote_prefixes))
              _
              (λ w g.
                printed_or_run-IsAgreed w
                  (wrap_mount_namespace-env h.platform h.executable c w o.adapter_sock wd
                      t.remote_prefixes (or_leave-next 1 _ w g)
                    ∙ build_command-injected_env h.platform h.own_env cfg c refl
                        (or_refused-next _ c e))
                  a b)))

  serve_or_launch-IsAgreed :
      (o : RunOpts) (t : Table) (target : Bytes) (l : k.State)
      → h.listen o.adapter_sock ≡ true
      → h.listen (bridge_sock k h o) ≡ true
      → IsAgreed h.listen o.adapter_sock (ending k h (serve_or_launch k h o t target l))
  unfolding cfg
  serve_or_launch-IsAgreed o t target l a b =
      either_keeps (λ s. IsAgreed h.listen o.adapter_sock (ending k h s)) o.serve_fs_only tt
        (launch-IsAgreed o t target (injected_args k h (profile_of o) (probe k h l) ++ o.args) a b)

  run-IsAgreed : (o : RunOpts) → IsAgreed h.listen o.adapter_sock (ending k h (run k h o))
  unfolding run
  run-IsAgreed o = steps-IsAgreed o.adapter_sock (route_table k h o) _ (λ t e.
      steps-IsAgreed o.adapter_sock (target_of k h o) _ (λ target f.
        steps-IsAgreed o.adapter_sock (with_spawn_proxy k h o) _ (λ o1 e1.
          steps-IsAgreed o.adapter_sock (with_interceptor k h o1) _ (λ o2 e2.
            steps-IsAgreed o.adapter_sock (dialed k h (h.dial (transport_of k h o2))) _ (λ l e.
              steps-IsAgreed o.adapter_sock (listening k h o2) _ (λ u up.
                let (a, b) =
                  check-next (h.listen o2.adapter_sock) (h.listen (bridge_sock k h o2)) u up in
                subst (λ x. IsAgreed h.listen x (ending k h (serve_or_launch k h o2 t target l)))
                  (with_interceptor-sock o1 o2 e2 ∙ with_spawn_proxy-sock o o1 e1)
                  (serve_or_launch-IsAgreed o2 t target l a b)))))))

  after_parse-IsAgreed : (p : Parsed RunOpts) → IsAgreed h.listen (sock_of p) (after_parse k h p)
  after_parse-IsAgreed (refused e) = tt
  after_parse-IsAgreed (parsed o) = run-IsAgreed o

  -- Whatever the command line and the host, the command that rca prints or runs has in its environment
  -- the remote prefixes of the very table that the adapter routes by, the socket of the command line for its
  -- file operations and the one with the ending .exec for its subprocesses, and by then both are
  -- listened on; also where rca's own environment has other values for them.
  pub cmd_run-IsAgreed :
      (args : List Bytes)
      → IsAgreed h.listen
          (sock_of (parse_run_args (is_darwin h.platform) h.default_sock args))
          (cmd_run k h args)
  unfolding cmd_run
  cmd_run-IsAgreed args =
      after_parse-IsAgreed (parse_run_args (is_darwin h.platform) h.default_sock args)
