-- ===== src/Cli/Embedded/Whole.antt =====
-- What others see of an artifact while it is extracted.
use remote_adapter.Prelude.{
  ◌≡◌, ◌⊎◌, Bool, true, false, Option, none, some, List, [], ◌∷◌, Bytes, equal, All, if◌then◌else◌,
}
use remote_adapter.Cli.Embedded.{FileOp, made, wrote, made_executable, renamed, removed, Extracted}

-- The files by path: what each holds, and whether it is executable.
abbrev pub Files : Type 0
Files = Bytes → Option (Bytes × Bool)

abbrev pub put : Bytes → Option (Bytes × Bool) → Files → Files
put q x s p = if equal p q then x else s p

abbrev pub marked : Option (Bytes × Bool) → Option (Bytes × Bool)
marked none = none
marked (some (b, x)) = some (b, true)

-- What an operation does to the files.
abbrev pub do_op : FileOp → Files → Files
do_op (made t) s = put t (some ([], false)) s
do_op (wrote t b) s = put t (some (b, false)) s
do_op (made_executable t) s = put t (marked (s t)) s
do_op (renamed t d) s = put d (s t) (put t none s)
do_op (removed t) s = put t none s

-- The files after the operations, and the files that others get to see on the way.
unfoldable pub files_after : List FileOp → Files → Files
files_after [] s = s
files_after (op ∷ ops) s = files_after ops (do_op op s)

unfoldable pub seen : List FileOp → Files → List Files
seen [] s = s ∷ []
seen (op ∷ ops) s = s ∷ seen ops (do_op op s)

-- At its place an artifact is what it was before, or all of it, and executable.
abbrev pub IsWhole : Bytes → Bytes → Files → Files → Type 0
IsWhole dest content s t = (t dest ≡ s dest) ⊎ (t dest ≡ some (content, true))

-- What an extraction does to the files: nobody sees a torn artifact, no other file is changed in the
-- end, and where it fails neither is the artifact.
abbrev pub IsClean : Bytes → Bytes → Files → Extracted → Type 0
IsClean dest content s r =
    All (IsWhole dest content s) (seen r.ops s)
    × ((p : Bytes) → equal p dest ≡ false → files_after r.ops s p ≡ s p)
    × (r.path ≡ none → files_after r.ops s dest ≡ s dest)

module _ (dest content tmp : Bytes) (s : Files) (apart : equal dest tmp ≡ false)
    (fresh : s tmp ≡ none) where
  -- Files that are as they were, but for the temporary one.
  record Apart (t : Files) : Type 0 where
    same : (p : Bytes) → equal p tmp ≡ false → t p ≡ s p

  abbrev made_file : Files
  made_file = put tmp (some ([], false)) s

  abbrev written_file : Bytes → Files
  written_file b = put tmp (some (b, false)) made_file

  abbrev marked_file : Files
  marked_file = put tmp (marked (written_file content tmp)) (written_file content)
