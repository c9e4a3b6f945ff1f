-- ===== src/Subprocess.antt =====
-- Subprocesses: the stream between the spawn proxy and the executor, and what the executor starts.
pub mod Interleaving
pub mod Frames
pub mod Proxy
pub mod Child
pub mod Control
pub mod Service
