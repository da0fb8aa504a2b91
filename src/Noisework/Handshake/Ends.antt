-- ===== src/Noisework/Handshake/Ends.antt =====
-- noisework.go: two agents from the creation of their roles to the data that they exchange.
use network_project.Prelude.{
  ℕ, ◌≤◌, ◌≡◌, refl, true, false, List, Option, none, some, arith, Bytes, length, Result, ok,
}
use network_project.Noisework.Cipher.{Noise}
use network_project.Noisework.Session.{default_rekey_every, max_nonce}
use network_project.Noisework.Session.Sending.{Wire, send_all}
use network_project.Noisework.Session.Delivery.{
  open_all, StaysInReach, plaintexts, arriving, delivery,
}
use network_project.Noisework.Handshake.{
  NoiseXx, Keypair, HandshakeError, Established, valid_keypair, new_initiator, new_responder,
}
use network_project.Noisework.Handshake.Agreement.{
  shake, Exchange, initiator_end, responder_end, shake-Exchange, new_initiator_lem,
  new_responder_lem, valid_keypair-length, initiator_end-CanSend, responder_end-CanReceive,
  responder_end-CanSend, initiator_end-CanReceive,
}

module _ (noise : Noise) (xx : NoiseXx noise) where
  open noise use {Key, rekey, seal, unseal}
  open xx use {State, new_state, write_message, read_message, remote_static}

  -- the two roles from their creation on
  unfoldable pub handshake :
      ℕ
      → ℕ
      → Keypair
      → Keypair
      → Bytes
      → Option (Result HandshakeError (Established noise xx × Established noise xx))
  handshake seed_i seed_r ka kb prologue =
      elim (new_initiator noise xx seed_i ka kb.public_key prologue) [
        | none ↦ none
        | some i ↦ elim (new_responder noise xx seed_r kb prologue) [
          | none ↦ none
          | some r ↦ some (shake noise xx i r)
        ]
      ]

  module _ (a b : State) (ka kb : Keypair)
      (x : Exchange noise xx a b ka.public_key kb.public_key) where
    abbrev pub agent : Established noise xx
    agent = initiator_end noise xx a b ka.public_key kb.public_key x

    abbrev pub other_agent : Established noise xx
    other_agent = responder_end noise xx a b ka.public_key kb.public_key x

    -- what arrives of a sequence of calls of `Send` of the one and of the other
    abbrev pub forth : List Bytes → List ℕ → List (Wire noise)
    forth ps is = arriving noise (send_all noise agent.transport ps) is

    abbrev pub back : List Bytes → List ℕ → List (Wire noise)
    back qs js = arriving noise (send_all noise other_agent.transport qs) js

  -- Two agents with keys of the right size, whose three messages arrive: both handshakes end, each with
  -- a session that names the static key of the other end. What either end then seals with `Send`, the
  -- other opens with `DecryptAt` to its plaintext, in whatever order, how often and with whatever gaps
  -- it arrives, if each frame stays within the epochs that the one before it leaves in reach and the
  -- cipher opens what it sealed.
  pub handshake-open_all :
      (seed_i seed_r : ℕ) (ka kb : Keypair) (prologue : Bytes) (a b : State)
      (x : Exchange noise xx a b ka.public_key kb.public_key) (ps qs : List Bytes) (is js : List ℕ)
      → valid_keypair ka ≡ true
      → valid_keypair kb ≡ true
      → new_state seed_i true prologue ka ≡ some a
      → new_state seed_r false prologue kb ≡ some b
      → ((k : Key) (n : ℕ) (pt ct : Bytes) → seal k n pt ≡ some ct → unseal k n ct ≡ some pt)
      → length ps ≤ max_nonce
      → length qs ≤ max_nonce
      → StaysInReach noise 0 default_rekey_every (forth a b ka kb x ps is)
      → StaysInReach noise 0 default_rekey_every (back a b ka kb x qs js)
      → (handshake seed_i seed_r ka kb prologue
          ≡ some (ok (agent a b ka kb x, other_agent a b ka kb x)))
        × (open_all noise (other_agent a b ka kb x).transport (forth a b ka kb x ps is)
            ≡ plaintexts noise (forth a b ka kb x ps is))
        × (open_all noise (agent a b ka kb x).transport (back a b ka kb x qs js)
            ≡ plaintexts noise (back a b ka kb x qs js))
  unfolding handshake
  handshake-open_all seed_i seed_r ka kb prologue a b x ps qs is js va vb ea eb law f g u v =
      let pa = ka.public_key in
      let pb = kb.public_key in
      let si = (agent a b ka kb x).transport in
      let sr = (other_agent a b ka kb x).transport in
      (
        rw
            (
              new_initiator_lem noise xx seed_i ka pb prologue a va
                  (valid_keypair-length noise xx kb vb) ea,
              handshake,
              new_responder_lem noise xx seed_r kb prologue b vb eb,
              shake-Exchange noise xx a b pa pb x,
            )
            refl,
        delivery noise x.forth.key si sr ps is law (initiator_end-CanSend noise xx a b pa pb x)
            (responder_end-CanReceive noise xx a b pa pb x) refl (omega (arith, f)) u,
        delivery noise x.back.key sr si qs js law (responder_end-CanSend noise xx a b pa pb x)
            (initiator_end-CanReceive noise xx a b pa pb x) refl (omega (arith, g)) v,
      )
