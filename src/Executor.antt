-- ===== src/Executor.antt =====
-- internal/executor: the file system service, the stream loop and the subprocess service.
pub mod Host
pub mod Fs
pub mod Stream
pub mod Serve
