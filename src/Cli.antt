-- ===== src/Cli.antt =====
-- cmd/rca: the command line of rca, and what it does with it.
pub mod RunArgs
pub mod Profile
pub mod Embedded
pub mod Run
pub mod Namespace
pub mod Serve
pub mod Main
pub mod Relay
pub mod Fuse
