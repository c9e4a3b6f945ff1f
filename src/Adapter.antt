-- ===== src/Adapter.antt =====
-- internal/adapter: the brain-side host, which routes each operation to one of two sides.
pub mod Link
pub mod Session
pub mod Wire
pub mod Launch
pub mod ServerInfo
pub mod Conn
pub mod Serve
