-- ===== src/Prelude/FilePath.antt =====
-- path/filepath on Unix, as far as the repository uses it: Clean, Base, Dir and Join.
mod Laws
pub use Laws.*
mod Defs
unfoldable pub use Defs.*
