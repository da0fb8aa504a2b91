-- ===== src/Control/Opening.antt =====
-- control.go: the two ends of a connection, from `Initiate` and `Accept` on.
use network_project.Prelude.{
  ℕ, ◌+◌, ◌*◌, ◌/◌, ◌%◌, ◌^◌, ◌≤◌, ◌<◌, ◌≡◌, refl, true, false, List, [], ◌++◌, some, arith, Bytes,
  All, length, ok, put_u16,
}
use mathlib.Core.List.{append_assoc, append-nil}
use mathlib.Core.Path.{subst}
use network_project.Noisework.Cipher.{Noise}
use network_project.Noisework.Session.{max_nonce}
use network_project.Noisework.Handshake.{NoiseXx, Keypair, valid_keypair}
use network_project.Noisework.Handshake.Agreement.{
  Exchange, initiator_end, responder_end, message1_lem, read_message1_lem, message2_lem,
  read_message2_lem, write_message3_lem, read_message3_lem, new_initiator_lem, new_responder_lem,
  valid_keypair-length, initiator_end-CanSend, responder_end-CanReceive, responder_end-CanSend,
  initiator_end-CanReceive,
}
use network_project.Record.{read_full}
use network_project.Record.RoundTrip.{read_full-append}
use network_project.Control.{Conn, prologue, write_raw, read_raw, initiate, accept}
use network_project.Control.Channel.{Aead, Paired}
use network_project.Control.Messages.{
  write_all, read_some, Fits, wire, write_all-wire, read_some-wire,
}

read_raw-write_raw :
    (b rest : Bytes) → length b < 2 ^ 16 → read_raw (write_raw b ++ rest) ≡ ok (b, rest)
unfolding read_raw write_raw
read_raw-write_raw b rest h =
    let n : length b / 256 % 256 * 256 + length b % 256 ≡ length b = omega (arith, h) in
    rw (read_header (length b) (b ++ rest)) (rw n (read_full-append b rest))
  where
    read_header : (n : ℕ) (s : Bytes) → read_full 2 (put_u16 n ++ s) ≡ ok (put_u16 n, s)
    read_header n s = unfold read_full in ground arith

module _ (noise : Noise) (xx : NoiseXx noise) where
  open xx use {State, new_state}

  -- The messages of a handshake are shorter than the length field of 16 bits can say.
  abbrev pub Short : {a b : State} {ka kb : Bytes} → Exchange noise xx a b ka kb → Type 0
  Short x = (length x.m1 < 2 ^ 16) × (length x.m2 < 2 ^ 16) × (length x.m3 < 2 ^ 16)

  module _ (a b : State) (ka kb : Keypair)
      (x : Exchange noise xx a b ka.public_key kb.public_key) where
    abbrev pub client : Bytes → Conn noise xx
    client held = record {
      sess = (initiator_end noise xx a b ka.public_key kb.public_key x).transport;
      held = held;
    }

    abbrev pub server : Bytes → Conn noise xx
    server held = record {
      sess = (responder_end noise xx a b ka.public_key kb.public_key x).transport;
      held = held;
    }

    initiate_lem :
        (seed : ℕ) (rest : Bytes)
        → valid_keypair ka ≡ true
        → valid_keypair kb ≡ true
        → new_state seed true prologue ka ≡ some a
        → Short x
        → initiate noise xx seed ka kb.public_key (write_raw x.m2 ++ rest)
          ≡ ok (client rest, write_raw x.m1 ++ write_raw x.m3)
    unfolding initiate
    initiate_lem seed rest va vb e h =
        let pa = ka.public_key in
        let pb = kb.public_key in
        rw
          (new_initiator_lem noise xx seed ka pb prologue a va (valid_keypair-length noise xx kb vb)
            e)
          (rw (message1_lem noise xx a b pa pb x) (
            rw (read_raw-write_raw x.m2 rest h.1) (
              rw (read_message2_lem noise xx a b pa pb x)
                (rw (write_message3_lem noise xx a b pa pb x) refl))))

    accept_lem :
        (seed : ℕ) (rest : Bytes)
        → valid_keypair kb ≡ true
        → new_state seed false prologue kb ≡ some b
        → Short x
        → accept noise xx seed kb (write_raw x.m1 ++ (write_raw x.m3 ++ rest))
          ≡ ok (ka.public_key, server rest, write_raw x.m2)
    unfolding accept
    accept_lem seed rest vb e h =
        let pa = ka.public_key in
        let pb = kb.public_key in
        rw (new_responder_lem noise xx seed kb prologue b vb e) (
          rw (read_raw-write_raw x.m1 (write_raw x.m3 ++ rest) h.0) (
            rw (read_message1_lem noise xx a b pa pb x) (
              rw (message2_lem noise xx a b pa pb x) (
                rw (read_raw-write_raw x.m3 rest h.2)
                  (rw (read_message3_lem noise xx a b pa pb x) refl)))))

    module _ (aead : Aead noise) where
      client-Paired : (h k : Bytes) → Paired noise x.forth.key (client h).sess (server k).sess
      client-Paired h k = record {
        can_send = initiator_end-CanSend noise xx a b ka.public_key kb.public_key x;
        can_receive = responder_end-CanReceive noise xx a b ka.public_key kb.public_key x;
        same_count = refl;
        same_every = refl;
        not_ahead = omega arith;
        one_behind = omega arith;
      }

      server-Paired : (h k : Bytes) → Paired noise x.back.key (server h).sess (client k).sess
      server-Paired h k = record {
        can_send = responder_end-CanSend noise xx a b ka.public_key kb.public_key x;
        can_receive = initiator_end-CanReceive noise xx a b ka.public_key kb.public_key x;
        same_count = refl;
        same_every = refl;
        not_ahead = omega arith;
        one_behind = omega arith;
      }

      -- the bytes of the messages of each end
      abbrev upstream : List Bytes → Bytes
      upstream ps = wire noise xx aead x.forth.key (client []).sess ps

      abbrev downstream : List Bytes → Bytes
      downstream qs = wire noise xx aead x.back.key (server []).sess qs

      -- `Initiate` of an agent and `Accept` of the coordinator, each given what the other writes, open a
      -- connection on which the coordinator knows the agent's key. All messages that either end then
      -- writes with `WriteMsg`, of at most 2^20 - 16 bytes each, the other reads with `ReadMsg`, unchanged
      -- and in order, and nothing is left. The cipher seals with a tag of 16 bytes and opens what it
      -- sealed, and the handshake messages fit their length field.
      pub connect-messages :
          (seed_a seed_b : ℕ) (ps qs : List Bytes)
          → valid_keypair ka ≡ true
          → valid_keypair kb ≡ true
          → new_state seed_a true prologue ka ≡ some a
          → new_state seed_b false prologue kb ≡ some b
          → Short x
          → All (Fits noise xx) ps
          → All (Fits noise xx) qs
          → length ps ≤ max_nonce
          → length qs ≤ max_nonce
          → (up down : Bytes) × (write_all noise xx (client []) ps ≡ ok up)
            × (write_all noise xx (server []) qs ≡ ok down)
            × (initiate noise xx seed_a ka kb.public_key (write_raw x.m2 ++ down)
                ≡ ok (client down, write_raw x.m1 ++ write_raw x.m3))
            × (accept noise xx seed_b kb ((write_raw x.m1 ++ write_raw x.m3) ++ up)
                ≡ ok (ka.public_key, server up, write_raw x.m2))
            × (read_some noise xx (server up) (length ps) ≡ ok (ps, []))
            × (read_some noise xx (client down) (length qs) ≡ ok (qs, []))
      connect-messages seed_a seed_b ps qs va vb ea eb h fp fq lp lq =
          let up = upstream ps in
          let down = downstream qs in
          (
            up,
            down,
            write_all-wire noise xx aead x.forth.key (client []) (server []).sess ps
                (client-Paired [] []) (omega (arith, lp)),
            write_all-wire noise xx aead x.back.key (server []) (client []).sess qs
                (server-Paired [] []) (omega (arith, lq)),
            initiate_lem seed_a down va vb ea h,
            rw (append_assoc (write_raw x.m1) (write_raw x.m3) up) (accept_lem seed_b up vb eb h),
            subst (λ w. read_some noise xx (server w) (length ps) ≡ ok (ps, [])) (append-nil up)
                (read_some-wire noise xx aead x.forth.key (client []).sess (server []).sess ps []
                  (client-Paired [] []) fp (omega (arith, lp))),
            subst (λ w. read_some noise xx (client w) (length qs) ≡ ok (qs, [])) (append-nil down)
                (read_some-wire noise xx aead x.back.key (server []).sess (client []).sess qs []
                  (server-Paired [] []) fq (omega (arith, lq))),
          )
