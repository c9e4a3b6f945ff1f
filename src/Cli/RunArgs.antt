-- ===== src/Cli/RunArgs.antt =====
-- cmd/rca/run.go: `parseRunArgs`, which takes rca's own flags out of a command line.
pub mod Laws
use remote_adapter.Prelude.{
  ℕ, ◌+◌, Bool, true, false, not, ◌&&◌, ◌||◌, Option, none, some, List, [], ◌∷◌, ◌++◌, Bytes, codes,
  equal, starts_with, trim_left, ◌==◌, if◌then◌else◌,
}
use remote_adapter.Prelude.FilePath.{is_empty}

pub record RunOpts : Type 0 where
  pub command : Bytes
  pub args : List Bytes
  pub code : Bytes
  pub peer : Bytes
  pub sock : Bytes
  pub via : Bytes
  pub workdir : Bytes
  pub remote_prefixes : List Bytes
  pub local_prefixes : List Bytes
  pub default_remote : Bool
  pub profile : Bytes
  pub resign : Bool
  pub print_cmd : Bool
  pub serve_fs_only : Bool
  pub adapter_sock : Bytes
  pub sentinel : Bytes
  pub dylib : Bytes
  pub supervisor : Bytes
  pub spawn_proxy : Bytes

-- The value of `o` before the loop, on a host that re-signs or not, with its default socket.
unfoldable pub default_opts : Bool → Bytes → RunOpts
default_opts darwin default_sock = record {
  command = [];
  args = [];
  code = [];
  peer = [];
  sock = [];
  via = [];
  workdir = [];
  remote_prefixes = [];
  local_prefixes = [];
  default_remote = false;
  profile = [];
  resign = darwin;
  print_cmd = false;
  serve_fs_only = false;
  adapter_sock = default_sock;
  sentinel = codes "RCC_REMOTE_MARK";
  dylib = [];
  supervisor = [];
  spawn_proxy = [];
}

pub data RunError : Type 0 where
  bad_value needs_value unknown_flag : Bytes → RunError
  no_command : RunError
  not_one_transport : ℕ → RunError

pub data Parsed (A : Type 0) : Type 0 where
  parsed : A → Parsed A
  refused : RunError → Parsed A

-- The entries of `ownedFlags`: what a flag with a value sets, and what a Boolean flag sets.
pub data Owned : Type 0 where
  takes_value : (Bytes → RunOpts → RunOpts) → Owned
  takes_bool : (Bool → RunOpts → RunOpts) → Owned

unfoldable pub owned_flags : List (Bytes × Owned)
owned_flags =
    (codes "code", takes_value (λ v o. record o { code = v }))
    ∷ (codes "peer", takes_value (λ v o. record o { peer = v }))
    ∷ (codes "sock", takes_value (λ v o. record o { sock = v }))
    ∷ (codes "via", takes_value (λ v o. record o { via = v }))
    ∷ (codes "workdir", takes_value (λ v o. record o { workdir = v }))
    ∷ (
      codes "remote-prefix",
      takes_value (λ v o. record o { remote_prefixes = o.remote_prefixes ++ (v ∷ []) }),
    )
    ∷ (
      codes "local-prefix",
      takes_value (λ v o. record o { local_prefixes = o.local_prefixes ++ (v ∷ []) }),
    )
    ∷ (codes "default-remote", takes_bool (λ b o. record o { default_remote = b }))
    ∷ (codes "profile", takes_value (λ v o. record o { profile = v }))
    ∷ (codes "resign", takes_bool (λ b o. record o { resign = b }))
    ∷ (codes "print-cmd", takes_bool (λ b o. record o { print_cmd = b }))
    ∷ (codes "serve-fs-only", takes_bool (λ b o. record o { serve_fs_only = b }))
    ∷ (codes "adapter-sock", takes_value (λ v o. record o { adapter_sock = v }))
    ∷ (codes "spawn-sentinel", takes_value (λ v o. record o { sentinel = v }))
    ∷ (codes "dylib", takes_value (λ v o. record o { dylib = v }))
    ∷ (codes "supervisor", takes_value (λ v o. record o { supervisor = v }))
    ∷ (codes "spawn-proxy", takes_value (λ v o. record o { spawn_proxy = v }))
    ∷ []

unfoldable pub find_flag : Bytes → List (Bytes × Owned) → Option Owned
find_flag name [] = none
find_flag name ((n, flag) ∷ flags) = if equal name n then some flag else find_flag name flags

-- The spellings of strconv.ParseBool.
abbrev pub parse_bool : Bytes → Option Bool
parse_bool v =
    if equal v (codes "1")
      || equal v (codes "t")
      || equal v (codes "T")
      || equal v (codes "true")
      || equal v (codes "TRUE")
      || equal v (codes "True")
    then some true
    else if equal v (codes "0")
        || equal v (codes "f")
        || equal v (codes "F")
        || equal v (codes "false")
        || equal v (codes "FALSE")
        || equal v (codes "False")
    then some false
    else none

-- A name, and the value behind its first '='.
unfoldable pub split_value : Bytes → Bytes × Option Bytes
split_value [] = ([], none)
split_value (c ∷ s) =
    let (name, val) = split_value s in if c == b'=' then ([], some s) else (c ∷ name, val)

-- What a token is to the loop.
pub data Token : Type 0 where
  dashes word foreign : Token
  flag : Bytes → Option Bytes → Owned → Token

abbrev pub owned_token : Bytes → Option Bytes → Option Owned → Token
owned_token name val none = foreign
owned_token name val (some f) = flag name val f

abbrev pub dash : ℕ
dash = b'-'

unfoldable pub token_of : Bytes → Token
token_of tok =
    if equal tok (dash ∷ dash ∷ [])
    then dashes
    else if starts_with (dash ∷ []) tok && not (equal tok (dash ∷ []))
    then (let (name, val) = split_value (trim_left (λ c. c == dash) tok) in
        owned_token name val (find_flag name owned_flags))
    else word

abbrev pub add_word : Bytes → RunOpts → RunOpts
add_word tok o =
    if is_empty o.command
    then record o { command = tok }
    else record o { args = o.args ++ (tok ∷ []) }

-- Everything behind "--" is the command's.
abbrev pub add_rest : List Bytes → RunOpts → RunOpts
add_rest [] o = o
add_rest (tok ∷ rest) o =
    if is_empty o.command
    then record o { command = tok; args = o.args ++ rest }
    else record o { args = o.args ++ (tok ∷ rest) }

-- The loop on the tokens left, and on those behind the next one, which is there for a value.
abbrev pub Rounds : Type 0
Rounds = (RunOpts → Parsed RunOpts) × Option (Bytes × (RunOpts → Parsed RunOpts))

abbrev pub on_bool :
    Bytes → (Bool → RunOpts → RunOpts) → Option Bool → Rounds → RunOpts → Parsed RunOpts
on_bool name put none rounds o = refused (bad_value name)
on_bool name put (some b) rounds o = rounds.0 (put b o)

abbrev pub on_next :
    Bytes
    → (Bytes → RunOpts → RunOpts)
    → Option (Bytes × (RunOpts → Parsed RunOpts))
    → RunOpts
    → Parsed RunOpts
on_next name put none o = refused (needs_value name)
on_next name put (some (v, later)) o = later (put v o)

abbrev pub on_token : Token → Bytes → List Bytes → Rounds → RunOpts → Parsed RunOpts
on_token dashes tok rest rounds o = parsed (add_rest rest o)
on_token word tok rest rounds o = rounds.0 (add_word tok o)
on_token foreign tok rest rounds o =
    if is_empty o.command
    then refused (unknown_flag tok)
    else rounds.0 (record o { args = o.args ++ (tok ∷ []) })
on_token (flag name none (takes_bool put)) tok rest rounds o = rounds.0 (put true o)
on_token (flag name (some v) (takes_bool put)) tok rest rounds o =
    on_bool name put (parse_bool v) rounds o
on_token (flag name (some v) (takes_value put)) tok rest rounds o = rounds.0 (put v o)
on_token (flag name none (takes_value put)) tok rest rounds o = on_next name put rounds.1 o

-- The loop over the arguments.
unfoldable pub scan : List Bytes → RunOpts → Parsed RunOpts
scan [] o = parsed o
scan (tok ∷ []) o = on_token (token_of tok) tok [] (scan [], none) o
scan (tok ∷ v ∷ rest) o =
    on_token (token_of tok) tok (v ∷ rest) (scan (v ∷ rest), some (v, scan rest)) o

abbrev pub btoi : Bool → ℕ
btoi true = 1
btoi false = 0

-- How many of the transports are given.
abbrev pub transports : RunOpts → ℕ
transports o =
    btoi (not (is_empty o.code))
    + btoi (not (is_empty o.peer))
    + btoi (not (is_empty o.sock))
    + btoi (not (is_empty o.via))

abbrev pub validated : Parsed RunOpts → Parsed RunOpts
validated (refused e) = refused e
validated (parsed o) =
    if is_empty o.command && not o.serve_fs_only
    then refused no_command
    else if transports o == 1
    then parsed o
    else refused (not_one_transport (transports o))

-- `parseRunArgs`.
unfoldable pub parse_run_args : Bool → Bytes → List Bytes → Parsed RunOpts
unfolding scan default_opts
parse_run_args darwin default_sock args = validated (scan args (default_opts darwin default_sock))
