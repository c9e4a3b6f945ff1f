-- ===== src/Cli/Main.antt =====
-- cmd/rca/main.go: which command a command line of rca asks for.
use remote_adapter.Prelude.{ℕ, ◌||◌, List, [], ◌∷◌, Bytes, codes, equal, if◌then◌else◌}

-- The command with its arguments; `usage` has the status that rca leaves with.
pub data Command : Type 0 where
  serve relay spawn_proxy fuse ns_run run : List Bytes → Command
  usage : ℕ → Command
  version : Command

-- `dispatch`, on the arguments after the name of the program.
unfoldable pub dispatch : List Bytes → Command
dispatch [] = usage 2
dispatch (name ∷ args) =
    if equal name (codes "serve")
    then serve args
    else if equal name (codes "relay")
    then relay args
    else if equal name (codes "_spawn-proxy")
    then spawn_proxy args
    else if equal name (codes "_fuse")
    then fuse args
    else if equal name (codes "_nsrun")
    then ns_run args
    else if equal name (codes "help") || (equal name (codes "-h") || equal name (codes "--help"))
    then usage 0
    else if equal name (codes "version") || equal name (codes "--version")
    then version
    else run (name ∷ args)
