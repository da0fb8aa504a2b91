-- ===== src/Relay.antt =====
-- internal/relay: the packet format, the budgets, and the server that forwards packets by name.
pub mod Packet
pub mod Budget
pub mod Server
