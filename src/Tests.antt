-- ===== src/Tests.antt =====
-- The theorems at concrete inputs.
mod Wire
mod Windows
mod Sessions
mod Peers
mod Relays
mod Registries
mod Boxes
mod Handshakes
mod Runs
mod Tunnels
mod Agents
mod Meetings
mod Pings
