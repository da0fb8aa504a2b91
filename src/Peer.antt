-- ===== src/Peer.antt =====
-- internal/peer: one remote peer, its replay window, its handshake and its data.
pub mod Replay
pub mod Disco
pub mod State
pub mod Data
pub mod Handshake
pub mod Run
pub mod Link
