-- ===== src/Tests/Meetings.antt =====
-- peer.go: two peers that meet, over the toy handshake.
use network_project.Prelude.{refl, [], ◌∷◌, none, some, arith, Bytes, equal, ◌≡◌, true}
use network_project.Net.{UdpAddr}
use network_project.Peer.Disco.{role_is_initiator}
use network_project.Peer.State.{Peer, new_peer}
use network_project.Peer.Link.{over_noise}
use network_project.Peer.Link.Agents.{shake, peers-Meets}
use network_project.Peer.Link.Meeting.{CanCall, CanAnswer, Meets}
use network_project.Noisework.Handshake.{valid_keypair}
use network_project.Noisework.Handshake.Agreement.{initiator_end, responder_end}
use network_project.Tests.Handshakes.{
  tagged, toy_xx, alice, bob, alice_start, bob_start, exchange, valid,
}

abbrev at_alice : UdpAddr
at_alice = record { ip = 10 ∷ 0 ∷ 0 ∷ 1 ∷ []; port = 9; zone = [] }

abbrev at_bob : UdpAddr
at_bob = record { ip = 10 ∷ 0 ∷ 0 ∷ 2 ∷ []; port = 9; zone = [] }

abbrev at_relay : UdpAddr
at_relay = record { ip = 10 ∷ 0 ∷ 0 ∷ 3 ∷ []; port = 9; zone = [] }

abbrev ip_text : UdpAddr → Bytes
ip_text a = a.ip

-- alice's name is the smaller one
abbrev caller : Peer tagged (over_noise tagged toy_xx alice)
caller =
    new_peer tagged (over_noise tagged toy_xx alice) (97 ∷ []) (98 ∷ []) bob.public_key
      (some at_bob) (some at_relay)

abbrev callee : Peer tagged (over_noise tagged toy_xx bob)
callee =
    new_peer tagged (over_noise tagged toy_xx bob) (98 ∷ []) (97 ∷ []) alice.public_key
      (some at_alice) none

alice_valid : valid_keypair alice ≡ true
alice_valid = valid alice refl refl

bob_valid : valid_keypair bob ≡ true
bob_valid = valid bob refl refl

can_call :
    CanCall tagged
      (over_noise tagged toy_xx alice)
      (over_noise tagged toy_xx bob)
      alice.public_key
      bob.public_key
      0
      0
      (shake tagged toy_xx alice bob alice_start bob_start exchange 0 0 alice_valid bob_valid refl
        refl)
      at_alice
      at_bob
      ip_text
      caller
      5000000000
unfolding new_peer role_is_initiator equal
can_call = record { role = refl; key = refl; blank = refl; ep = refl; due = refl; unrelayed = refl }

can_answer :
    CanAnswer tagged
      (over_noise tagged toy_xx alice)
      (over_noise tagged toy_xx bob)
      alice.public_key
      bob.public_key
      0
      0
      (shake tagged toy_xx alice bob alice_start bob_start exchange 0 0 alice_valid bob_valid refl
        refl)
      at_alice
      at_bob
      ip_text
      callee
      5000000001
unfolding new_peer role_is_initiator
can_answer = record {
  role = refl;
  key = refl;
  idle = refl;
  unestablished = refl;
  ep = refl;
  window = refl;
  unrelayed = tt;
}

peers-Meets_example :
    Meets tagged
      (over_noise tagged toy_xx alice)
      (over_noise tagged toy_xx bob)
      alice.public_key
      bob.public_key
      0
      0
      (shake tagged toy_xx alice bob alice_start bob_start exchange 0 0 alice_valid bob_valid refl
        refl)
      at_alice
      at_bob
      ip_text
      caller
      callee
      5000000000
      5000000001
      5000000002
      5000000003
      0
    × ((shake tagged toy_xx alice bob alice_start bob_start exchange 0 0 alice_valid bob_valid refl
          refl).ends
        ≡ (initiator_end tagged toy_xx alice_start bob_start alice.public_key bob.public_key
            exchange).transport)
    × ((shake tagged toy_xx alice bob alice_start bob_start exchange 0 0 alice_valid bob_valid refl
          refl).ends'
        ≡ (responder_end tagged toy_xx alice_start bob_start alice.public_key bob.public_key
            exchange).transport)
peers-Meets_example =
    peers-Meets tagged toy_xx alice bob alice_start bob_start exchange 0 0 alice_valid bob_valid
      refl refl at_alice at_bob ip_text caller callee 5000000000 5000000001 5000000002 5000000003 0
      (omega arith) (omega arith) (omega arith) can_call can_answer
