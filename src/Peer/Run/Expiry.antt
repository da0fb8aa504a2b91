-- ===== src/Peer/Run/Expiry.antt =====
-- peer.go: what a tick of `Run` lets expire.
use network_project.Peer.State.{Peer}
