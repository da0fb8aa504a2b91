-- ===== src/Peer/Run/Returning.antt =====
-- peer.go: a tick returns. `record.Frame` panics on a payload of more than 65535 bytes, and what a tick
-- frames is shorter: a first message of a handshake, and an empty payload that was sealed.
use network_project.Prelude.{
  ℕ, ◌+◌, ◌≤◌, ◌≡◌, inl, inr, not, [], ◌∷◌, ◌++◌, Option, none, some, arith, Bytes, length, ltb,
  if-rule, Option-cases, Result, ok, err, put_u16,
}
use network_project.Noisework.Cipher.{Noise, CipherState}
use network_project.Noisework.Session.{
  Session, SessionError, max_nonce, seal_next, send_from, send, rekey_send_to,
}
use network_project.Peer.State.{Handshakes}
use network_project.Record.{max_payload_len, frame, type_data}
use network_project.Peer.Data.{put_u64}

-- What a handshake and a cipher say on sizes: message 1 is a key, and a tag has 16 bytes.
pub record Compact (noise : Noise) (hs : Handshakes noise) : Type 0 where
  pub first :
      (i i' : hs.Initiator) (m : Bytes) → hs.message1 i ≡ some (m, i') → length m ≤ max_payload_len
  pub tagged :
      (k : noise.Key) (n : ℕ) (pt ct : Bytes)
      → noise.seal k n pt ≡ some ct
      → length ct ≤ length pt + 16

pub frame-some :
    (t : ℕ) (payload : Bytes)
    → length payload ≤ max_payload_len
    → (f : Bytes) × (frame t payload ≡ some f)
unfolding frame
frame-some t payload h = (t ∷ (put_u16 (length payload) ++ payload), ground (arith, h))

module _ (noise : Noise) where
  open noise use {Key, seal}

  abbrev pub Seals : Bytes → Result SessionError (ℕ × Bytes) → Type 0
  Seals pt (err _) = Unit {0}
  Seals pt (ok (n, ct)) = (k : Key) × (m : ℕ) × (seal k m pt ≡ some ct)

  seal_next-Seals :
      (s : Session noise) (c : CipherState noise) (pt : Bytes) → Seals pt (seal_next noise s c pt).1
  unfolding seal_next
  seal_next-Seals s c pt = elim (Option-cases (seal c.key s.send_count pt)) [
    | inl e ↦ rw (e, seal_next) tt
    | inr (ct, e) ↦ rw (e, seal_next) (c.key, s.send_count, e)
  ]

  send_from-Seals :
      (s : Session noise) (c : CipherState noise) (pt : Bytes) → Seals pt (send_from noise s c pt).1
  unfolding send_from
  send_from-Seals s c pt =
      let Good = λ (r : Session noise × Result SessionError (ℕ × Bytes)). Seals pt r.1 in
      let r = rekey_send_to noise s c s.send_count in
      if-rule Good (ltb max_nonce s.send_count) _ _ tt
        (if-rule Good (not r.2) _ (seal_next noise r.0 r.1 pt) tt (seal_next-Seals r.0 r.1 pt))

  pub send-Seals : (s : Session noise) (pt : Bytes) → Seals pt (send noise s pt).1
  unfolding send
  send-Seals s pt = elim (Option-cases s.send_state) [
    | inl e ↦ simp (e, send) tt
    | inr (c, e) ↦ simp (e, send) (send_from-Seals s c pt)
  ]

  put_u64-length : (n : ℕ) (ct : Bytes) → length (put_u64 n ++ ct) ≡ 8 + length ct
  put_u64-length n ct = ground arith

module _ (noise : Noise) (hs : Handshakes noise) (c : Compact noise hs) where
  open hs use {Initiator, new_initiator, message1}

  pub data_frame-some :
      (n : ℕ) (r : Result SessionError (ℕ × Bytes)) (ct : Bytes)
      → r ≡ ok (n, ct)
      → Seals noise [] r
      → (f : Bytes) × (frame type_data (put_u64 n ++ ct) ≡ some f)
  data_frame-some n (err e) ct q v = cc q
  data_frame-some n (ok (m, d)) ct q v =
      let same : d ≡ ct = cc q in
      let short : length ct ≤ 16 = ground (arith, same, c.tagged v.0 v.1 [] d v.2) in
      frame-some type_data (put_u64 n ++ ct) (omega (arith, short, put_u64-length noise n ct))

-- The step does not panic, and the peer that it leaves is as said.
abbrev pub Yields {ℓ} : {A B : Type ℓ} → (A → Type 0) → Option (A × B) → Type 0
Yields P none = ⊥
Yields P (some (a, _)) = P a
