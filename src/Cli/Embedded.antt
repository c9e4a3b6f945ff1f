-- ===== src/Cli/Embedded.antt =====
-- cmd/rca/embedded.go: the native artifacts that the binary carries.
pub mod Whole
use remote_adapter.Prelude.{
  ℕ, Bool, true, false, not, ◌&&◌, Option, none, some, List, [], ◌∷◌, ◌++◌, Bytes, codes, length,
  equal, ◌==◌, if◌then◌else◌,
}
use remote_adapter.Prelude.FilePath.{is_empty, join_path}
use remote_adapter.Adapter.Launch.{Platform, darwin, linux, other_platform}

unfoldable pub native_artifact_name : Platform → Bytes
native_artifact_name darwin = codes "rcc_interpose.dylib"
native_artifact_name linux = codes "rcc_seccomp"
native_artifact_name other_platform = []

-- Files and hashes, of which `false` and `none` are errors. `digest` is the hexadecimal of the first six
-- bytes of a SHA-256; `create_temp` takes a directory and a pattern and gives the file's path.
pub record Cache : Type 0 where
  pub embedded : Bytes → Option Bytes
  pub digest : Bytes → Bytes
  pub user_cache_dir : Option Bytes
  pub temp_dir : Bytes
  pub size_of : Bytes → Option ℕ
  pub mkdir_all : Bytes → Bool
  pub create_temp : Bytes → Bytes → Option Bytes
  -- What a write leaves in the file: all of it, unless the write fails.
  pub written : Bytes → Bytes → Bytes
  pub chmod : Bytes → Bool
  pub close : Bytes → Bool
  pub rename : Bytes → Bytes → Bool

-- What is done to the files, in order; a write that fails has written some part.
pub data FileOp : Type 0 where
  made : Bytes → FileOp
  wrote : Bytes → Bytes → FileOp
  made_executable : Bytes → FileOp
  renamed : Bytes → Bytes → FileOp
  removed : Bytes → FileOp

-- What `extractEmbeddedNative` does to the files, and the path or the error that it returns.
pub record Extracted : Type 0 where
  pub ops : List FileOp
  pub path : Option Bytes

abbrev pub untouched : Option Bytes → Extracted
untouched path = record { ops = []; path = path }

abbrev pub or_else : Bytes → Option Bytes → Bytes
or_else d none = d
or_else d (some x) = x

abbrev pub same_size : ℕ → Option ℕ → Bool
same_size n none = false
same_size n (some m) = m == n

-- The way out with an error, after os.Remove.
abbrev pub gives_up : Bytes → List FileOp → Extracted
gives_up tmp ops = record { ops = ops ++ (removed tmp ∷ []); path = none }

abbrev pub filled : Cache → Bytes → Bytes → Option Bytes → Extracted
filled c dest content none = untouched none
filled c dest content (some tmp) =
    if not (equal (c.written tmp content) content)
    then gives_up tmp (made tmp ∷ wrote tmp (c.written tmp content) ∷ [])
    else if not (c.chmod tmp)
    then gives_up tmp (made tmp ∷ wrote tmp content ∷ [])
    else if not (c.close tmp && c.rename tmp dest)
    then gives_up tmp (made tmp ∷ wrote tmp content ∷ made_executable tmp ∷ [])
    else record {
      ops = made tmp ∷ wrote tmp content ∷ made_executable tmp ∷ renamed tmp dest ∷ [];
      path = some dest;
    }

abbrev pub placed : Cache → Bytes → Bytes → Bytes → Extracted
placed c dir name content =
    if same_size (length content) (c.size_of (join_path dir name))
    then untouched (some (join_path dir name))
    else if c.mkdir_all dir
    then filled c (join_path dir name) content (c.create_temp dir (name ++ codes ".tmp*"))
    else untouched none

-- filepath.Join of the user's cache directory, "rca", "native" and the digest.
abbrev pub cache_dir : Cache → Bytes → Bytes
cache_dir c content =
    join_path
      (join_path (join_path (or_else c.temp_dir c.user_cache_dir) (codes "rca")) (codes "native"))
      (c.digest content)

abbrev pub extracted_from : Cache → Bytes → Option Bytes → Extracted
extracted_from c name none = untouched (some [])
extracted_from c name (some content) = placed c (cache_dir c content) name content

-- `extractEmbeddedNative`: the empty path where there is no such artifact.
unfoldable pub extract_embedded_native : Cache → Bytes → Extracted
extract_embedded_native c [] = untouched (some [])
extract_embedded_native c (x ∷ name) =
    extracted_from c (x ∷ name) (c.embedded (codes "embedded/" ++ (x ∷ name)))
