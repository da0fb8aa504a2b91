-- ===== src/Control/Messages.antt =====
-- control.go: sequences of messages, from either end.
use network_project.Prelude.{
  ℕ, zero, suc, ◌+◌, ◌≤◌, ◌≡◌, refl, List, [], ◌∷◌, ◌++◌, arith, Bytes, All, length, Result, ok,
  ◌>>=◌,
}
use mathlib.Core.List.{append_assoc}
use network_project.Noisework.Cipher.{Noise}
use network_project.Noisework.Session.{Session, send, decrypt_next, max_nonce}
use network_project.Noisework.Session.Sending.{key_of}
use network_project.Noisework.Handshake.{NoiseXx}
use network_project.Control.{Conn, ControlError, max_msg_len, write_msg, read_msg}
use network_project.Control.Channel.{
  Aead, Paired, ciphertext, framed, send-ciphertext, decrypt_next-Paired, write_msg_lem,
  read_msg_lem,
}

module _ (noise : Noise) (xx : NoiseXx noise) where
  -- the bytes of a sequence of calls of `WriteMsg`
  unfoldable pub write_all : Conn noise xx → List Bytes → Result ControlError Bytes
  write_all c [] = ok []
  write_all c (p ∷ ps) =
      let (c', r) = write_msg noise xx c p in do w ← r; ws ← write_all c' ps; ok (w ++ ws)

  -- so many calls of `ReadMsg`, and what is left
  unfoldable pub read_some : Conn noise xx → ℕ → Result ControlError (List Bytes × Bytes)
  read_some c zero = ok ([], c.held)
  read_some c (suc n) =
      let (c', r) = read_msg noise xx c in do p ← r; (ps, rest) ← read_some c' n; ok (p ∷ ps, rest)

  abbrev pub Fits : Bytes → Type 0
  Fits p = length p + 16 ≤ max_msg_len

  module _ (aead : Aead noise) (root : noise.Key) where
    abbrev pub wire : Session noise → List Bytes → Bytes
    wire s [] = []
    wire s (p ∷ ps) =
        framed noise aead root xx (ciphertext noise aead root s p) ++ wire (send noise s p).0 ps

    sent : Session noise → Bytes → Session noise
    sent s p = (send noise s p).0

    received : Session noise → Session noise → Bytes → Session noise
    received s r p = (decrypt_next noise r (ciphertext noise aead root s p)).0

    pub write_all-wire :
        (c : Conn noise xx) (r : Session noise) (ps : List Bytes)
        → Paired noise root c.sess r
        → c.sess.send_count + length ps ≤ max_nonce
        → write_all c ps ≡ ok (wire c.sess ps)
    unfolding write_all sent received
    write_all-wire c r [] v f = refl
    write_all-wire c r (p ∷ ps) v f =
        let low : c.sess.send_count ≤ max_nonce = omega (arith, f) in
        let next = record c { sess = sent c.sess p } in
        let on = (send-ciphertext noise aead root c.sess p v.can_send low).2 in
        rw (write_msg_lem noise aead root xx c p v.can_send low) (
          rw
            (write_all-wire next (received c.sess r p) ps
              (decrypt_next-Paired noise aead root c.sess r p v low).1 (omega (arith, on, f)))
            refl)

    pub read_some-wire :
        (s r : Session noise) (ps : List Bytes) (rest : Bytes)
        → Paired noise root s r
        → All Fits ps
        → s.send_count + length ps ≤ max_nonce
        → read_some (record { sess = r; held = wire s ps ++ rest }) (length ps) ≡ ok (ps, rest)
    unfolding read_some sent received
    read_some-wire s r [] rest v h f = refl
    read_some-wire s r (p ∷ ps) rest v h f =
        let low : s.send_count ≤ max_nonce = omega (arith, f) in
        let ct = ciphertext noise aead root s p in
        let on = (send-ciphertext noise aead root s p v.can_send low).2 in
        let (o, v') = decrypt_next-Paired noise aead root s r p v low in
        let tail = wire (sent s p) ps ++ rest in
        let size = aead.tag (key_of noise root s.rekey_every s.send_count) s.send_count p in
        let d : Conn noise xx = record { sess = r; held = wire s (p ∷ ps) ++ rest } in
        rw
          (read_msg_lem noise aead root xx d ct tail p
            (append_assoc (framed noise aead root xx ct) (wire (sent s p) ps) rest)
            (omega (arith, size)) (omega (arith, size, h.0)) o)
          (rw (read_some-wire (sent s p) (received s r p) ps rest v' h.1 (omega (arith, on, f)))
            refl)
