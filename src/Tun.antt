-- ===== src/Tun.antt =====
-- internal/tun: the router of outbound packets, and the device in memory.
pub mod Router
pub mod Buffer
