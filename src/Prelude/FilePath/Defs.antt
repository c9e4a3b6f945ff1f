-- ===== src/Prelude/FilePath/Defs.antt =====
-- Clean drops empty and "." components, resolves "..", and joins what is left.
use mathlib.Core.Bool.{Bool, true, false, ◌||◌}
use mathlib.Core.List.{List, [], ◌∷◌, ◌++◌, reverse}
use Prim.Native.Nat.{ℕ}
use remote_adapter.Prelude.Tests.{◌==◌, if◌then◌else◌}
use remote_adapter.Prelude.Text.{Bytes, equal, join}

abbrev pub slash : ℕ
slash = b'/'

-- strings.Split at one byte, on top of the reversed field read so far.
unfoldable pub split_from : ℕ → Bytes → Bytes → List Bytes
split_from sep acc [] = reverse acc ∷ []
split_from sep acc (c ∷ s) = elim (c == sep) [
  | true ↦ reverse acc ∷ split_from sep [] s
  | false ↦ split_from sep (c ∷ acc) s
]

abbrev pub split : ℕ → Bytes → List Bytes
split sep = split_from sep []

abbrev pub is_empty {ℓ} : {A : Type ℓ} → List A → Bool
is_empty [] = true
is_empty (x ∷ xs) = false

abbrev pub dot : Bytes
dot = b'.' ∷ []

abbrev pub dot_dot : Bytes
dot_dot = b'.' ∷ b'.' ∷ []

-- "..", on the components kept so far, the last one first.
abbrev pub up : Bool → List Bytes → List Bytes
up true [] = []
up false [] = dot_dot ∷ []
up rooted (c ∷ cs) = if equal c dot_dot then dot_dot ∷ c ∷ cs else cs

abbrev pub push_one : Bool → List Bytes → Bytes → List Bytes
push_one rooted kept c =
    if is_empty c || equal c dot then kept else if equal c dot_dot then up rooted kept else c ∷ kept

unfoldable pub push : Bool → List Bytes → List Bytes → List Bytes
push rooted kept [] = kept
push rooted kept (c ∷ cs) = push rooted (push_one rooted kept c) cs

abbrev pub is_rooted : Bytes → Bool
is_rooted [] = false
is_rooted (c ∷ s) = c == slash

-- The components of a cleaned path.
unfoldable pub components : Bytes → List Bytes
unfolding push split_from
components p = reverse (push (is_rooted p) [] (split slash p))

-- A path from its components.
unfoldable pub render : Bool → List Bytes → Bytes
render true cs = slash ∷ join (slash ∷ []) cs
render false [] = dot
render false (c ∷ cs) = join (slash ∷ []) (c ∷ cs)

-- filepath.Clean: the empty path becomes ".".
unfoldable pub clean : Bytes → Bytes
unfolding components render
clean p = render (is_rooted p) (components p)

-- The last component of a path that is not empty: filepath.Base strips trailing slashes, and gives
-- "." for the empty path and "/" for one of slashes alone.
abbrev pub last_or : Bytes → List Bytes → Bytes
last_or d [] = d
last_or d (c ∷ cs) = last_or (if is_empty c then d else c) cs

unfoldable pub base : Bytes → Bytes
unfolding split_from
base p = last_or (if is_empty p then dot else slash ∷ []) (split slash p)

-- What a path has up to its last slash, and filepath.Dir.
unfoldable pub through_slash : Bytes → Bytes
through_slash [] = []
through_slash (c ∷ s) =
    let rest = through_slash s in
    if is_empty rest then (if c == slash then slash ∷ [] else []) else c ∷ rest

unfoldable pub dir_name : Bytes → Bytes
unfolding clean through_slash
dir_name p = clean (through_slash p)

-- filepath.Join and path.Join of two elements: empty ones are left out.
unfoldable pub join_path : Bytes → Bytes → Bytes
unfolding clean
join_path [] [] = []
join_path [] (c ∷ b) = clean (c ∷ b)
join_path (c ∷ a) [] = clean (c ∷ a)
join_path (c ∷ a) (d ∷ b) = clean ((c ∷ a) ++ (slash ∷ d ∷ b))
