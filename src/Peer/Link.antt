-- ===== src/Peer/Link.antt =====
-- peer.go: the handshake of a peer over the role machines of noisework.go. An error of either is
-- `none`; the session is the one that the role ends with.
pub mod Steps
pub mod Meeting
pub mod Agents
use network_project.Prelude.{ℕ, List, [], ◌∷◌, Option, none, some, Bytes, Result, ok, err}
use network_project.Noisework.Cipher.{Noise}
use network_project.Noisework.Handshake.{
  NoiseXx, Keypair, HandshakeError, Established, Initiator, Responder, new_initiator, new_responder,
  message1, read_message2, write_message3, read_message1, message2, read_message3,
}
use network_project.Peer.State.{Installed, Handshakes}

-- "meshlink-v1"
abbrev pub prologue : Bytes
prologue = 109 ∷ 101 ∷ 115 ∷ 104 ∷ 108 ∷ 105 ∷ 110 ∷ 107 ∷ 45 ∷ 118 ∷ 49 ∷ []

module _ (noise : Noise) (xx : NoiseXx noise) where
  abbrev pub installed : Established noise xx → Installed noise
  installed s = record { session = s.transport; peer_static = s.static }

  abbrev sent {ℓ} : {A : Type ℓ} → A × Result HandshakeError Bytes → Option (Bytes × A)
  sent (a, err _) = none
  sent (a, ok m) = some (m, a)

  abbrev taken {ℓ κ} : {A : Type ℓ} {B : Type κ} → A × Result HandshakeError B → Option A
  taken (a, err _) = none
  taken (a, ok _) = some a

  abbrev ended :
      Initiator noise xx × Result HandshakeError (Bytes × Established noise xx)
      → Option (Bytes × Installed noise × Initiator noise xx)
  ended (a, err _) = none
  ended (a, ok (m, s)) = some (m, installed s, a)

  abbrev joined :
      Responder noise xx × Result HandshakeError (Established noise xx) → Option (Installed noise)
  joined (a, err _) = none
  joined (a, ok s) = some (installed s)

  -- what `peer.New` is given of the keys of the agent
  abbrev pub over_noise : Keypair → Handshakes noise
  over_noise my_kp = record {
    Initiator = Initiator noise xx;
    Responder = Responder noise xx;
    new_initiator = λ seed key. new_initiator noise xx seed my_kp key prologue;
    message1 = λ i. sent (message1 noise xx i);
    read_message2 = λ i m. taken (read_message2 noise xx i m);
    write_message3 = λ i. ended (write_message3 noise xx i);
    new_responder = λ seed. new_responder noise xx seed my_kp prologue;
    read_message1 = λ r m. taken (read_message1 noise xx r m);
    message2 = λ r. sent (message2 noise xx r);
    read_message3 = λ r m. joined (read_message3 noise xx r m);
  }
