-- ===== src/Control/Channel.antt =====
-- control.go: the messages that one end of a connection writes, and the other reads.
use network_project.Prelude.{
  ℕ, ◌+◌, ◌^◌, ◌≤◌, ◌<◌, ◌≡◌, refl, sym, ap, ◌∙◌, false, ◌||◌, ◌++◌, some, arith, Bytes, length,
  ltb, ◌==◌, ok, put_u32, u32_at, ge→ltb,
}
use mathlib.Core.Path.{ap₂}
use network_project.Noisework.Cipher.{Noise, rekey_times}
use network_project.Noisework.Session.{
  Session, send, decrypt_at, decrypt_next, in_order, max_nonce, epoch_of, next64,
}
use network_project.Noisework.Session.Epochs.{epoch_of_step}
use network_project.Noisework.Session.Sending.{CanSend, key_of, answer, send-Sent}
use network_project.Noisework.Session.Receiving.{CanReceive, decrypt_at-Opened}
use network_project.Noisework.Handshake.{NoiseXx}
use network_project.Record.{read_full}
use network_project.Record.RoundTrip.{read_full-append}
use network_project.Control.{Conn, max_msg_len, write_msg, read_body, read_msg}

-- the cipher: it seals whatever it is given, adds its tag of 16 bytes, and opens what it sealed
pub record Aead (noise : Noise) : Type 0 where
  pub sealed : noise.Key → ℕ → Bytes → Bytes
  pub seals : (k : noise.Key) (n : ℕ) (pt : Bytes) → noise.seal k n pt ≡ some (sealed k n pt)
  pub tag : (k : noise.Key) (n : ℕ) (pt : Bytes) → length (sealed k n pt) ≡ length pt + 16
  pub opens : (k : noise.Key) (n : ℕ) (pt : Bytes) → noise.unseal k n (sealed k n pt) ≡ some pt

module _ (noise : Noise) where
  -- A sender and a receiver that stand at the same message, keyed from one root.
  pub record Paired (root : noise.Key) (s r : Session noise) : Type 0 where
    pub can_send : CanSend noise root s
    pub can_receive : CanReceive noise root r
    pub same_count : r.recv_count ≡ s.send_count
    pub same_every : r.rekey_every ≡ s.rekey_every
    pub not_ahead : r.recv_epoch ≤ epoch_of s.send_count s.rekey_every
    pub one_behind : epoch_of s.send_count s.rekey_every ≤ r.recv_epoch + 1

  module _ (aead : Aead noise) (root : noise.Key) where
    abbrev pub ciphertext : Session noise → Bytes → Bytes
    ciphertext s p = aead.sealed (key_of noise root s.rekey_every s.send_count) s.send_count p

    pub send-ciphertext :
        (s : Session noise) (p : Bytes)
        → CanSend noise root s
        → s.send_count ≤ max_nonce
        → ((send noise s p).1 ≡ ok (s.send_count, ciphertext s p))
          × CanSend noise root (send noise s p).0
          × ((send noise s p).0.send_count ≡ s.send_count + 1)
          × ((send noise s p).0.rekey_every ≡ s.rekey_every)
    send-ciphertext s p v f =
        let (a, v', n, e) = send-Sent noise root s p v f in
        let is : (send noise s p).1 ≡ ok (s.send_count, ciphertext s p) =
          a
          ∙ rw (aead.seals (key_of noise root s.rekey_every s.send_count) s.send_count p, answer)
              refl in
        (is, v', n ∙ rw is refl, e)

    decrypt_next_ok :
        (r : Session noise) (ct p : Bytes)
        → CanReceive noise root r
        → r.recv_count ≤ max_nonce
        → (decrypt_at noise r r.recv_count ct).1 ≡ ok p
        → decrypt_next noise r ct ≡ (
          record (decrypt_at noise r r.recv_count ct).0 { recv_count = next64 r.recv_count },
          ok p,
        )
    unfolding decrypt_next in_order
    decrypt_next_ok r ct p v f e =
        simp (v.is_state, decrypt_next) (rw (ge→ltb max_nonce r.recv_count f, e) refl)

    pub decrypt_next-Paired :
        (s r : Session noise) (p : Bytes)
        → Paired root s r
        → s.send_count ≤ max_nonce
        → ((decrypt_next noise r (ciphertext s p)).1 ≡ ok p)
          × Paired root (send noise s p).0 (decrypt_next noise r (ciphertext s p)).0
    decrypt_next-Paired s r p v f =
        let ct = ciphertext s p in
        let (is, cs, n, e) = send-ciphertext s p v.can_send f in
        let low : r.recv_count ≤ max_nonce = omega (arith, v.same_count, f) in
        let at : epoch_of r.recv_count r.rekey_every ≡ epoch_of s.send_count s.rekey_every =
          ap₂ epoch_of v.same_count v.same_every in
        let key : key_of noise root r.rekey_every r.recv_count
            ≡ key_of noise root s.rekey_every s.send_count =
          ap (λ (i : ℕ). rekey_times noise i root) at in
        let opens : noise.unseal (key_of noise root r.rekey_every r.recv_count) r.recv_count ct
            ≡ some p =
          ap₂ (λ (k : noise.Key) (i : ℕ). noise.unseal k i ct) key v.same_count
          ∙ aead.opens (key_of noise root s.rekey_every s.send_count) s.send_count p in
        let (o, (cr, ep, q)) =
          decrypt_at-Opened noise root r r.recv_count ct p v.can_receive low
            (omega (arith, at, v.not_ahead), omega (arith, at, v.one_behind)) opens in
        let d = decrypt_at noise r r.recv_count ct in
        let next : epoch_of (send noise s p).0.send_count (send noise s p).0.rekey_every
            ≡ epoch_of (s.send_count + 1) s.rekey_every =
          ap₂ epoch_of n e in
        rw (decrypt_next_ok r ct p v.can_receive low o) (
          refl,
          record {
            can_send = cs;
            can_receive = record {
              state = cr.state;
              is_state = cr.is_state;
              scheduled = cr.scheduled;
            };
            same_count = omega (arith, n, v.same_count, low);
            same_every = q ∙ v.same_every ∙ sym e;
            not_ahead = omega (arith, next, ep, at, epoch_of_step s.send_count s.rekey_every);
            one_behind = omega (arith, next, ep, at, epoch_of_step s.send_count s.rekey_every);
          },
        )

    module _ (xx : NoiseXx noise) where
      unfoldable pub framed : Bytes → Bytes
      framed ct = put_u32 (length ct) ++ ct

      pub write_msg_lem :
          (c : Conn noise xx) (p : Bytes)
          → CanSend noise root c.sess
          → c.sess.send_count ≤ max_nonce
          → write_msg noise xx c p
            ≡ (record c { sess = (send noise c.sess p).0 }, ok (framed (ciphertext c.sess p)))
      unfolding write_msg framed
      write_msg_lem c p v f = rw ((send-ciphertext c.sess p v f).0, write_msg) refl

      read_header : (n : ℕ) (rest : Bytes) → read_full 4 (put_u32 n ++ rest) ≡ ok (put_u32 n, rest)
      unfolding read_full
      read_header n rest = ground arith

      put_u32-u32_at : (n : ℕ) → n < 2 ^ 32 → u32_at (put_u32 n) ≡ n
      put_u32-u32_at n h = omega arith

      read_body_lem :
          (d : Conn noise xx) (ct rest p : Bytes)
          → 0 < length ct
          → length ct ≤ max_msg_len
          → (decrypt_next noise d.sess ct).1 ≡ ok p
          → read_body noise xx d (length ct) (ct ++ rest)
            ≡ (record { sess = (decrypt_next noise d.sess ct).0; held = rest }, ok p)
      unfolding read_body
      read_body_lem d ct rest p lo hi e =
          let guard : (length ct == 0 || ltb max_msg_len (length ct)) ≡ false =
            ground (arith, lo, hi) in
          rw (guard, read_body, read_full-append ct rest, e) refl

      pub read_msg_lem :
          (d : Conn noise xx) (ct rest p : Bytes)
          → d.held ≡ framed ct ++ rest
          → 0 < length ct
          → length ct ≤ max_msg_len
          → (decrypt_next noise d.sess ct).1 ≡ ok p
          → read_msg noise xx d
            ≡ (record { sess = (decrypt_next noise d.sess ct).0; held = rest }, ok p)
      unfolding read_msg framed
      read_msg_lem d ct rest p h lo hi e =
          simp (h, read_msg)
            (rw (read_header (length ct) (ct ++ rest)) (
              rw (put_u32-u32_at (length ct) (omega (arith, hi)))
                (read_body_lem d ct rest p lo hi e)))
