-- ===== src/Fuse.antt =====
-- internal/linuxfuse/fs_linux.go: the FUSE file system over the adapter's socket.
pub mod Client
pub mod Attr
pub mod Nodes
pub mod Laws
pub mod Mount
