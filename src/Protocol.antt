-- ===== src/Protocol.antt =====
-- internal/protocol/protocol.go: the binary IO-RPC wire format.
pub mod Types
pub mod Frame
pub mod Parser
pub mod Requests
pub mod Responses
pub mod Names
