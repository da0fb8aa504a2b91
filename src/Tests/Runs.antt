-- ===== src/Tests/Runs.antt =====
-- peer.go: ticks of a peer that has a day-old session, and of one that has none.
use network_project.Prelude.{ℕ, ◌*◌, Bool, true, List, [], ◌∷◌, some}
use network_project.Net.{UdpAddr}
use network_project.Peer.Disco.{path_direct, second}
use network_project.Peer.State.{Output, Peer, new_peer}
use network_project.Tests.Sessions.{toy}
use network_project.Tests.Peers.{toy_handshakes, key, link}

abbrev endpoint : UdpAddr
endpoint = record { ip = 10 ∷ 0 ∷ 0 ∷ 1 ∷ []; port = 4000; zone = [] }

abbrev relay : UdpAddr
relay = record { ip = 10 ∷ 0 ∷ 0 ∷ 2 ∷ []; port = 3478; zone = [] }

abbrev fresh : Peer toy toy_handshakes
fresh = new_peer toy toy_handshakes (97 ∷ []) (98 ∷ []) key (some endpoint) (some relay)

-- a session from time 5, and a responder that waits
abbrev old : Peer toy toy_handshakes
old = record fresh {
  sess = some link;
  established = true;
  sess_since = 5;
  responder = some tt;
  hs2_frame = some [];
  hs2_sent_at = 5;
}

abbrev all : Output → Bool
all o = true

-- the third tick is late
abbrev times : List (ℕ × ℕ)
times = (second, 1) ∷ (2 * second, 2) ∷ (4 * second, 3) ∷ []

abbrev started : Peer toy toy_handshakes
started = record fresh { mode = path_direct }
