-- ===== src/Peer/Link/Agents.antt =====
-- peer.go and noisework.go: two agents whose peers meet.
use network_project.Prelude.{ℕ, ◌≤◌, ◌≡◌, refl, true, false, none, some, Bytes, length}
use network_project.Net.{UdpAddr}
use network_project.Noisework.Cipher.{Noise}
use network_project.Noisework.Handshake.{
  NoiseXx, Keypair, at_start, at_message1, at_message2, at_complete, valid_keypair,
}
use network_project.Noisework.Handshake.Agreement.{
  Exchange, initiator_end, responder_end, initiator_at, responder_at, unfinished, message1_lem,
  read_message1_lem, message2_lem, read_message2_lem, write_message3_lem, read_message3_lem,
  new_initiator_lem, new_responder_lem, valid_keypair-length,
}
use network_project.Record.{max_payload_len}
use network_project.Peer.State.{Peer}
use network_project.Peer.Link.{over_noise, prologue}
use network_project.Peer.Link.Steps.{Shake}
use network_project.Peer.Link.Meeting.{CanCall, CanAnswer, Meets, shake-Meets}

module _ (noise : Noise) (xx : NoiseXx noise) (ka kb : Keypair) (a b : xx.State)
    (x : Exchange noise xx a b ka.public_key kb.public_key) (sa sb : ℕ) where
  open xx use {new_state}

  unfoldable pub shake :
      valid_keypair ka ≡ true
      → valid_keypair kb ≡ true
      → new_state sa true prologue ka ≡ some a
      → new_state sb false prologue kb ≡ some b
      → Shake noise
          (over_noise noise xx ka)
          (over_noise noise xx kb)
          ka.public_key
          kb.public_key
          sa
          sb
  shake va vb ea eb =
      let pa = ka.public_key in
      let pb = kb.public_key in
      record {
        i0 = initiator_at noise xx a b pa pb x a none at_start;
        i1 = initiator_at noise xx a b pa pb x x.a1 none at_message1;
        i2 =
            initiator_at noise xx a b pa pb x x.a2 (some (unfinished noise xx a b pa pb x))
              at_message2;
        i3 =
            initiator_at noise xx a b pa pb x x.a3 (some (initiator_end noise xx a b pa pb x))
              at_complete;
        r0 = responder_at noise xx a b pa pb x b none at_start;
        r1 = responder_at noise xx a b pa pb x x.b1 none at_message1;
        r2 = responder_at noise xx a b pa pb x x.b2 none at_message2;
        m1 = x.m1;
        m2 = x.m2;
        m3 = x.m3;
        ends = (initiator_end noise xx a b pa pb x).transport;
        ends' = (responder_end noise xx a b pa pb x).transport;
        new_initiator_eq =
            new_initiator_lem noise xx sa ka pb prologue a va (valid_keypair-length noise xx kb vb)
              ea;
        message1_eq = rw (message1_lem noise xx a b pa pb x) refl;
        new_responder_eq = new_responder_lem noise xx sb kb prologue b vb eb;
        read_message1_eq = rw (read_message1_lem noise xx a b pa pb x) refl;
        message2_eq = rw (message2_lem noise xx a b pa pb x) refl;
        read_message2_eq = rw (read_message2_lem noise xx a b pa pb x) refl;
        write_message3_eq = rw (write_message3_lem noise xx a b pa pb x) refl;
        read_message3_eq = rw (read_message3_lem noise xx a b pa pb x) refl;
      }

  -- Two peers over the Noise handshake, of agents with keys of the right size that know each other's
  -- key and endpoint: the initiator is due to send its first message, the responder has no session and
  -- is idle, and the three messages of the handshake fit a frame. Then the probe of the one and the
  -- datagrams that it leads to, each handed to the other, end with a session on both, on the direct
  -- path. No step panics, and the sessions are the two ends of the exchange.
  pub peers-Meets :
      (va : valid_keypair ka ≡ true) (vb : valid_keypair kb ≡ true)
      (na : new_state sa true prologue ka ≡ some a) (nb : new_state sb false prologue kb ≡ some b)
      (ea eb : UdpAddr) (addr_string : UdpAddr → Bytes) (p : Peer noise (over_noise noise xx ka))
      (q : Peer noise (over_noise noise xx kb)) (t1 t2 t3 t4 seed : ℕ)
      → length x.m1 ≤ max_payload_len
      → length x.m2 ≤ max_payload_len
      → length x.m3 ≤ max_payload_len
      → CanCall noise
          (over_noise noise xx ka)
          (over_noise noise xx kb)
          ka.public_key
          kb.public_key
          sa
          sb
          (shake va vb na nb)
          ea
          eb
          addr_string
          p
          t1
      → CanAnswer noise
          (over_noise noise xx ka)
          (over_noise noise xx kb)
          ka.public_key
          kb.public_key
          sa
          sb
          (shake va vb na nb)
          ea
          eb
          addr_string
          q
          t2
      → Meets noise
          (over_noise noise xx ka)
          (over_noise noise xx kb)
          ka.public_key
          kb.public_key
          sa
          sb
          (shake va vb na nb)
          ea
          eb
          addr_string
          p
          q
          t1
          t2
          t3
          t4
          seed
        × ((shake va vb na nb).ends
            ≡ (initiator_end noise xx a b ka.public_key kb.public_key x).transport)
        × ((shake va vb na nb).ends'
            ≡ (responder_end noise xx a b ka.public_key kb.public_key x).transport)
  unfolding shake
  peers-Meets va vb na nb ea eb addr_string p q t1 t2 t3 t4 seed l1 l2 l3 c d = (
    shake-Meets noise (over_noise noise xx ka) (over_noise noise xx kb) ka.public_key kb.public_key
        sa sb (shake va vb na nb) ea eb addr_string p q t1 t2 t3 t4 seed c d
        (valid_keypair-length noise xx ka va) (valid_keypair-length noise xx kb vb) l1 l2 l3,
    refl,
    refl,
  )
