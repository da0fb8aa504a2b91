-- ===== src/Noisework.antt =====
-- internal/noisework: the Noise handshake, and the transport session over its ciphers.
pub mod Cipher
pub mod Session
pub mod Handshake
