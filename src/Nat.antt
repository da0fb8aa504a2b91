-- ===== src/Nat.antt =====
-- internal/nat: the NAT simulator.
pub mod Envelope
pub mod Box
