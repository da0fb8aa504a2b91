-- ===== src/Noisework/Handshake/Agreement.antt =====
-- noisework.go: an initiator and a responder that exchange their three messages.
use network_project.Prelude.{
  ℕ, ◌≡◌, refl, true, false, [], Option, none, some, arith, Bytes, length, Result, ok, ◌>>=◌,
  equal_refl, ==_iff,
}
use network_project.Noisework.Cipher.{Noise, CipherState}
use network_project.Noisework.Session.Sending.{CanSend}
use network_project.Noisework.Session.Receiving.{CanReceive}
use network_project.Noisework.Handshake.{
  NoiseXx, Keypair, HandshakeError, Established, Initiator, Responder, fresh_session, key_size,
  valid_keypair, new_initiator, new_responder, message1, read_message2, write_message3,
  read_message1, message2, read_message3, Phase, at_start, at_message1, at_message2, at_complete,
}

module _ (noise : Noise) (xx : NoiseXx noise) where
  open noise use {Key, rekey, seal, unseal}
  open xx use {State, new_state, write_message, read_message, remote_static}

  -- the calls of the two roles, in the order in which they exchange messages
  unfoldable pub shake :
      Initiator noise xx
      → Responder noise xx
      → Result HandshakeError (Established noise xx × Established noise xx)
  shake i r = do
    let (i1, sent1) = message1 noise xx i
    m1 ← sent1
    let (r1, read1) = read_message1 noise xx r m1
    _ ← read1
    let (r2, sent2) = message2 noise xx r1
    m2 ← sent2
    let (i2, read2) = read_message2 noise xx i1 m2
    _ ← read2
    let (i3, sent3) = write_message3 noise xx i2
    (m3, si) ← sent3
    let (r3, read3) = read_message3 noise xx r2 m3
    sr ← read3
    ok (si, sr)

  -- What the library does with the two states of an undisturbed exchange: each message is read, the
  -- ends learn each other's static key, and both get the same two cipher states in the same order.
  pub record Exchange (a b : State) (ka kb : Bytes) : Type 0 where
    pub a1 : State
    pub a2 : State
    pub a3 : State
    pub b1 : State
    pub b2 : State
    pub b3 : State
    pub m1 : Bytes
    pub m2 : Bytes
    pub m3 : Bytes
    pub forth : CipherState noise
    pub back : CipherState noise
    pub writes1 : write_message a ≡ (a1, some (m1, none, none))
    pub reads1 : read_message b m1 ≡ (b1, some (none, none))
    pub writes2 : write_message b1 ≡ (b2, some (m2, none, none))
    pub reads2 : read_message a1 m2 ≡ (a2, some (none, none))
    pub writes3 : write_message a2 ≡ (a3, some (m3, some forth, some back))
    pub reads3 : read_message b2 m3 ≡ (b3, some (some forth, some back))
    pub knows2 : remote_static a2 ≡ kb
    pub knows3 : remote_static a3 ≡ kb
    pub known : remote_static b3 ≡ ka

  module _ (a b : State) (ka kb : Bytes) (x : Exchange a b ka kb) where
    -- the sessions of the two ends
    abbrev pub initiator_end : Established noise xx
    initiator_end = record {
      transport = fresh_session noise xx (some x.forth) (some x.back);
      static = kb;
    }

    abbrev pub responder_end : Established noise xx
    responder_end = record {
      transport = fresh_session noise xx (some x.back) (some x.forth);
      static = ka;
    }

    abbrev pub initiator_at : State → Option (Established noise xx) → Phase → Initiator noise xx
    initiator_at st s ph = record { state = st; expected = kb; session = s; phase = ph }

    abbrev pub responder_at : State → Option (Established noise xx) → Phase → Responder noise xx
    responder_at st s ph = record { state = st; session = s; phase = ph }

    abbrev pub unfinished : Established noise xx
    unfinished = record { transport = fresh_session noise xx none none; static = [] }

    -- the six calls
    pub message1_lem :
        message1 noise xx (initiator_at a none at_start)
        ≡ (initiator_at x.a1 none at_message1, ok x.m1)
    unfolding message1
    message1_lem = rw (x.writes1, message1, x.writes1) refl

    pub read_message1_lem :
        read_message1 noise xx (responder_at b none at_start) x.m1
        ≡ (responder_at x.b1 none at_message1, ok tt)
    unfolding read_message1
    read_message1_lem = rw (x.reads1, read_message1, x.reads1) refl

    pub message2_lem :
        message2 noise xx (responder_at x.b1 none at_message1)
        ≡ (responder_at x.b2 none at_message2, ok x.m2)
    unfolding message2
    message2_lem = rw (x.writes2, message2, x.writes2) refl

    pub read_message2_lem :
        read_message2 noise xx (initiator_at x.a1 none at_message1) x.m2
        ≡ (initiator_at x.a2 (some unfinished) at_message2, ok unfinished)
    unfolding read_message2
    read_message2_lem = rw (x.reads2, read_message2, x.reads2, x.knows2, equal_refl kb) refl

    pub write_message3_lem :
        write_message3 noise xx (initiator_at x.a2 (some unfinished) at_message2)
        ≡ (initiator_at x.a3 (some initiator_end) at_complete, ok (x.m3, initiator_end))
    unfolding write_message3
    write_message3_lem = rw (x.writes3, write_message3, x.writes3, x.knows3) refl

    pub read_message3_lem :
        read_message3 noise xx (responder_at x.b2 none at_message2) x.m3
        ≡ (responder_at x.b3 (some responder_end) at_complete, ok responder_end)
    unfolding read_message3
    read_message3_lem = rw (x.reads3, read_message3, x.reads3, x.known) refl

    pub shake-Exchange :
        shake (initiator_at a none at_start) (responder_at b none at_start)
        ≡ ok (initiator_end, responder_end)
    unfolding shake
    shake-Exchange =
        rw
          (
            message1_lem, read_message1_lem, message2_lem, read_message2_lem, write_message3_lem,
            read_message3_lem,
          )
          refl

    pub initiator_end-CanSend : CanSend noise x.forth.key initiator_end.transport
    initiator_end-CanSend = record {
      state = x.forth;
      is_state = refl;
      scheduled = refl;
      count_fits = omega arith;
      not_behind = omega arith;
      one_ahead = omega arith;
    }

    pub responder_end-CanReceive : CanReceive noise x.forth.key responder_end.transport
    responder_end-CanReceive = record { state = x.forth; is_state = refl; scheduled = refl }

    pub responder_end-CanSend : CanSend noise x.back.key responder_end.transport
    responder_end-CanSend = record {
      state = x.back;
      is_state = refl;
      scheduled = refl;
      count_fits = omega arith;
      not_behind = omega arith;
      one_ahead = omega arith;
    }

    pub initiator_end-CanReceive : CanReceive noise x.back.key initiator_end.transport
    initiator_end-CanReceive = record { state = x.back; is_state = refl; scheduled = refl }

  pub new_initiator_lem :
      (seed : ℕ) (ka : Keypair) (kb prologue : Bytes) (a : State)
      → valid_keypair ka ≡ true
      → length kb ≡ key_size
      → new_state seed true prologue ka ≡ some a
      → new_initiator noise xx seed ka kb prologue
        ≡ some (record { state = a; expected = kb; session = none; phase = at_start })
  unfolding new_initiator
  new_initiator_lem seed ka kb prologue a v l e =
      rw (v, new_initiator, (==_iff (length kb) key_size).1 l, e) refl

  pub new_responder_lem :
      (seed : ℕ) (kb : Keypair) (prologue : Bytes) (b : State)
      → valid_keypair kb ≡ true
      → new_state seed false prologue kb ≡ some b
      → new_responder noise xx seed kb prologue
        ≡ some (record { state = b; session = none; phase = at_start })
  unfolding new_responder
  new_responder_lem seed kb prologue b v e = rw (v, new_responder, e) refl

  pub valid_keypair-length : (k : Keypair) → valid_keypair k ≡ true → length k.public_key ≡ key_size
  unfolding valid_keypair
  valid_keypair-length k v = ground (arith, v)
