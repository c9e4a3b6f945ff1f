-- ===== src/Pairing.antt =====
-- Pairing codes: internal/paircode.
pub mod Uvarint
pub mod Base64
pub mod StdBase64
pub mod Code
pub mod Printed
