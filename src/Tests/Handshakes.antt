-- ===== src/Tests/Handshakes.antt =====
-- noisework.go and control.go: a toy handshake, whose second and third messages carry the static keys,
-- over a toy cipher with a tag of 16 bytes.
use network_project.Prelude.{
  ℕ, zero, suc, ◌+◌, ◌≡◌, refl, true, ◌&&◌, List, [], ◌∷◌, ◌++◌, Option, none, some, arith, Bytes,
  length, replicate, ◌==◌, if◌then◌else◌, ok,
}
use network_project.Noisework.Cipher.{Noise, CipherState}
use network_project.Noisework.Session.{send, send_from, rekey_send_to, rekey_loop, seal_next}
use network_project.Noisework.Session.Sending.{send_all}
use network_project.Noisework.Session.Delivery.{open_all, plaintexts, keep, arriving}
use network_project.Noisework.Handshake.{
  NoiseXx, Keypair, valid_keypair, Initiator, Responder, at_start,
}
use network_project.Noisework.Handshake.Phases.{
  first, second, third, InOrder, initiator_phases, responder_phases, phases-InOrder,
}
use network_project.Noisework.Handshake.Agreement.{Exchange}
use network_project.Noisework.Handshake.Ends.{
  handshake, agent, other_agent, forth, back, handshake-open_all,
}
use network_project.Control.{initiate, accept, write_raw}
use network_project.Control.Channel.{Aead}
use network_project.Control.Messages.{write_all, read_some}
use network_project.Control.Opening.{client, server, connect-messages}

abbrev tagged_unseal : ℕ → ℕ → Bytes → Option Bytes
tagged_unseal k n (j ∷ m ∷ _ ∷ _ ∷ _ ∷ _ ∷ _ ∷ _ ∷ _ ∷ _ ∷ _ ∷ _ ∷ _ ∷ _ ∷ _ ∷ _ ∷ pt) =
    if (j == k) && (m == n) then some pt else none
tagged_unseal k n _ = none

abbrev tagged_seal : ℕ → ℕ → Bytes → Bytes
tagged_seal k n pt = k ∷ n ∷ (replicate 14 0 ++ pt)

abbrev pub tagged : Noise
tagged = record {
  Key = ℕ;
  rekey = λ k. k + 1;
  seal = λ k n pt. some (tagged_seal k n pt);
  unseal = tagged_unseal;
}

tagged_opens : (k n : ℕ) (pt : Bytes) → tagged_unseal k n (tagged_seal k n pt) ≡ some pt
tagged_opens k n pt = ground arith

tagged_law :
    (k n : ℕ) (pt ct : Bytes) → some (tagged_seal k n pt) ≡ some ct → tagged_unseal k n ct ≡ some pt
tagged_law k n pt ct e =
    let same : tagged_seal k n pt ≡ ct = cc e in rw (← same) (tagged_opens k n pt)

abbrev aead : Aead tagged
aead = record {
  sealed = tagged_seal;
  seals = λ k n pt. refl;
  tag = λ k n pt. omega arith;
  opens = tagged_opens;
}

-- its own key, the other's, and the messages so far
abbrev State : Type 0
State = Bytes × Bytes × ℕ

abbrev States : Type 0
States = Option (CipherState tagged) × Option (CipherState tagged)

abbrev there : CipherState tagged
there = record { key = 5; n = 0 }

abbrev here : CipherState tagged
here = record { key = 50; n = 0 }

abbrev toy_write :
    State → State × Option (Bytes × Option (CipherState tagged) × Option (CipherState tagged))
toy_write (mine, theirs, zero) = ((mine, theirs, 1), some (1 ∷ [], none, none))
toy_write (mine, theirs, suc zero) = ((mine, theirs, 2), some (2 ∷ mine, none, none))
toy_write (mine, theirs, suc (suc zero)) =
    ((mine, theirs, 3), some (3 ∷ mine, some there, some here))
toy_write s = (s, none)

abbrev toy_read : State → Bytes → State × Option States
toy_read (mine, theirs, zero) _ = ((mine, theirs, 1), some (none, none))
toy_read (mine, _, suc zero) (_ ∷ k) = ((mine, k, 2), some (none, none))
toy_read (mine, _, suc (suc zero)) (_ ∷ k) = ((mine, k, 3), some (some there, some here))
toy_read s _ = (s, none)

abbrev pub toy_xx : NoiseXx tagged
toy_xx = record {
  State = State;
  new_state = λ seed i pro kp. some (kp.public_key, [], 0);
  write_message = toy_write;
  read_message = toy_read;
  remote_static = λ s. s.1;
}

abbrev pub alice : Keypair
alice = record { public_key = replicate 32 7; private_key = replicate 32 1 }

abbrev pub bob : Keypair
bob = record { public_key = replicate 32 9; private_key = replicate 32 2 }

abbrev pub alice_start : State
alice_start = (alice.public_key, [], 0)

abbrev pub bob_start : State
bob_start = (bob.public_key, [], 0)

abbrev pub exchange : Exchange tagged toy_xx alice_start bob_start alice.public_key bob.public_key
exchange = record {
  a1 = (alice.public_key, [], 1);
  a2 = (alice.public_key, bob.public_key, 2);
  a3 = (alice.public_key, bob.public_key, 3);
  b1 = (bob.public_key, [], 1);
  b2 = (bob.public_key, [], 2);
  b3 = (bob.public_key, alice.public_key, 3);
  m1 = 1 ∷ [];
  m2 = 2 ∷ bob.public_key;
  m3 = 3 ∷ alice.public_key;
  forth = there;
  back = here;
  writes1 = refl;
  reads1 = refl;
  writes2 = refl;
  reads2 = refl;
  writes3 = refl;
  reads3 = refl;
  knows2 = refl;
  knows3 = refl;
  known = refl;
}

pub valid :
    (k : Keypair) → length k.private_key ≡ 32 → length k.public_key ≡ 32 → valid_keypair k ≡ true
unfolding valid_keypair
valid k p q = ground (arith, p, q)

abbrev responder_start : Responder tagged toy_xx
responder_start = record { state = bob_start; session = none; phase = at_start }

abbrev initiator_start : Initiator tagged toy_xx
initiator_start = record {
  state = alice_start;
  expected = bob.public_key;
  session = none;
  phase = at_start;
}

phases-InOrder_example :
    InOrder at_start (
      initiator_phases tagged toy_xx initiator_start
        (third [] ∷ first [] ∷ first [] ∷ second (2 ∷ bob.public_key) ∷ third [] ∷ third [] ∷ []))
    × InOrder at_start (
        responder_phases tagged toy_xx responder_start
          (first (1 ∷ []) ∷ second [] ∷ third [] ∷ third (3 ∷ alice.public_key) ∷ []))
phases-InOrder_example =
    phases-InOrder tagged toy_xx initiator_start responder_start
      (third [] ∷ first [] ∷ first [] ∷ second (2 ∷ bob.public_key) ∷ third [] ∷ third [] ∷ [])
      (first (1 ∷ []) ∷ second [] ∷ third [] ∷ third (3 ∷ alice.public_key) ∷ [])

abbrev sent : List Bytes
sent = (1 ∷ []) ∷ (2 ∷ []) ∷ []

abbrev answered : List Bytes
answered = (3 ∷ []) ∷ []

-- the second frame, lost and found, then the first
handshake-open_all_example :
    (handshake tagged toy_xx 0 0 alice bob []
      ≡ some (
          ok (
            agent tagged toy_xx alice_start bob_start alice bob exchange,
            other_agent tagged toy_xx alice_start bob_start alice bob exchange,
          )))
    × (open_all tagged
          (other_agent tagged toy_xx alice_start bob_start alice bob exchange).transport
          (forth tagged toy_xx alice_start bob_start alice bob exchange sent (1 ∷ 0 ∷ []))
        ≡ plaintexts tagged
            (forth tagged toy_xx alice_start bob_start alice bob exchange sent (1 ∷ 0 ∷ [])))
    × (open_all tagged
          (agent tagged toy_xx alice_start bob_start alice bob exchange).transport
          (back tagged toy_xx alice_start bob_start alice bob exchange answered (0 ∷ []))
        ≡ plaintexts tagged
            (back tagged toy_xx alice_start bob_start alice bob exchange answered (0 ∷ [])))
unfolding arriving keep send_all send send_from rekey_send_to rekey_loop seal_next
handshake-open_all_example =
    handshake-open_all tagged toy_xx 0 0 alice bob [] alice_start bob_start exchange sent answered
      (1 ∷ 0 ∷ []) (0 ∷ []) (valid alice refl refl) (valid bob refl refl) refl refl tagged_law
      (omega arith) (omega arith) ((omega arith, omega arith), ((omega arith, omega arith), tt))
      ((omega arith, omega arith), tt)

connect-messages_example :
    (up down : Bytes) × (write_all tagged toy_xx
        (client tagged toy_xx alice_start bob_start alice bob exchange [])
        sent
      ≡ ok up)
    × (write_all tagged toy_xx
          (server tagged toy_xx alice_start bob_start alice bob exchange [])
          answered
        ≡ ok down)
    × (initiate tagged toy_xx 0 alice bob.public_key (write_raw exchange.m2 ++ down)
        ≡ ok (
          client tagged toy_xx alice_start bob_start alice bob exchange down,
          write_raw exchange.m1 ++ write_raw exchange.m3,
        ))
    × (accept tagged toy_xx 0 bob ((write_raw exchange.m1 ++ write_raw exchange.m3) ++ up)
        ≡ ok (
          alice.public_key,
          server tagged toy_xx alice_start bob_start alice bob exchange up,
          write_raw exchange.m2,
        ))
    × (read_some tagged toy_xx (server tagged toy_xx alice_start bob_start alice bob exchange up) 2
        ≡ ok (sent, []))
    × (read_some tagged toy_xx
          (client tagged toy_xx alice_start bob_start alice bob exchange down)
          1
        ≡ ok (answered, []))
connect-messages_example =
    connect-messages tagged toy_xx alice_start bob_start alice bob exchange aead 0 0 sent answered
      (valid alice refl refl) (valid bob refl refl) refl refl
      (omega arith, omega arith, omega arith) (omega arith, (omega arith, tt)) (omega arith, tt)
      (omega arith) (omega arith)
