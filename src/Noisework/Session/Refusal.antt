-- ===== src/Noisework/Session/Refusal.antt =====
-- noisework.go: what a frame that `DecryptAt` refuses leaves alone.
use mathlib.Core.Path.{subst}
use network_project.Noisework.Cipher.{Noise, CipherState, set_nonce, rekey_times}
use network_project.Noisework.Session.{
  SessionError, not_ready, nonce_exhausted, jump_too_large, behind_epoch, epoch_of, Session,
  open_here, open_ahead, decrypt_from, decrypt_at,
}
use network_project.Prelude.{
  ℕ, ◌-◌, ◌≡◌, refl, sym, ap, ◌∙◌, inl, inr, Bool, true, false, none, some, arith, Bytes,
  if◌then◌else◌, Option-cases, Result, ok, err,
}
use network_project.Noisework.Session.Receiving.{decrypt_at_from}

module _ (noise : Noise) where
  open noise use {Key, rekey, seal, unseal}

  -- the session with its receive state at another nonce
  abbrev moved : Session noise → CipherState noise → ℕ → Session noise
  moved s c m = record s { recv_state = some (set_nonce noise c m) }

  open_here-moved :
      (s : Session noise) (c : CipherState noise) (m nonce : ℕ) (ct : Bytes)
      → (open_here noise (moved s c m) (set_nonce noise c m) nonce ct).1
        ≡ (open_here noise s c nonce ct).1
  unfolding open_here
  open_here-moved s c m nonce ct = elim (Option-cases (unseal c.key nonce ct)) [
    | inl e ↦ rw (e, open_here)
    | inr (pt, e) ↦ rw (e, open_here)
  ]

  open_ahead-moved :
      (s : Session noise) (c : CipherState noise) (m ep nonce : ℕ) (ct : Bytes)
      → (open_ahead noise (moved s c m) (set_nonce noise c m) ep nonce ct).1
        ≡ (open_ahead noise s c ep nonce ct).1
  unfolding open_ahead
  open_ahead-moved s c m ep nonce ct =
      elim (Option-cases (unseal (rekey_times noise (ep - s.recv_epoch) c.key) nonce ct)) [
        | inl e ↦ rw (e, open_ahead)
        | inr (pt, e) ↦ rw (e, open_ahead)
      ]

  decrypt_from-moved :
      (s : Session noise) (c : CipherState noise) (m nonce : ℕ) (ct : Bytes)
      → (decrypt_from noise (moved s c m) (set_nonce noise c m) nonce ct).1
        ≡ (decrypt_from noise s c nonce ct).1
  unfolding decrypt_from
  decrypt_from-moved s c m nonce ct =
      let ep = epoch_of nonce s.rekey_every in
      ground (arith, open_here-moved s c m nonce ct, open_ahead-moved s c m ep nonce ct)

  -- what a refused frame leaves: the session it met, or that with its receive state at another nonce
  data LeftAlone (s : Session noise) : Session noise → Type 0 where
    same : LeftAlone s s
    renonced : (c : CipherState noise) (m : ℕ) → s.recv_state ≡ some c → LeftAlone s (moved s c m)

  decrypt_at-none :
      (s : Session noise) (nonce : ℕ) (ct : Bytes)
      → s.recv_state ≡ none
      → decrypt_at noise s nonce ct ≡ (s, err not_ready)
  unfolding decrypt_at
  decrypt_at-none s nonce ct i = simp (i, decrypt_at)

  abbrev Kept : Session noise → Session noise × Result SessionError Bytes → Type 0
  Kept s r = (e : SessionError) → r.1 ≡ err e → LeftAlone s r.0

  Kept-same : (s : Session noise) (e : SessionError) → Kept s (s, err e)
  Kept-same s e x h = same

  Kept-ok : (s s' : Session noise) (pt : Bytes) → Kept s (s', ok pt)
  Kept-ok s s' pt x h = cc h

  Kept-if :
      (s : Session noise) (b : Bool) (q r : Session noise × Result SessionError Bytes)
      → Kept s q
      → Kept s r
      → Kept s (if b then q else r)
  Kept-if s true q r h k = h
  Kept-if s false q r h k = k

  open_here-Kept :
      (s : Session noise) (c : CipherState noise) (nonce : ℕ) (ct : Bytes)
      → s.recv_state ≡ some c
      → Kept s (open_here noise s c nonce ct)
  unfolding open_here
  open_here-Kept s c nonce ct i = elim (Option-cases (unseal c.key nonce ct)) [
    | inl u ↦ rw (u, open_here) (λ e h. renonced c nonce i)
    | inr (pt, u) ↦ rw (u, open_here) (λ e h. cc h)
  ]

  open_ahead-Kept :
      (s : Session noise) (c : CipherState noise) (ep nonce : ℕ) (ct : Bytes)
      → Kept s (open_ahead noise s c ep nonce ct)
  unfolding open_ahead
  open_ahead-Kept s c ep nonce ct =
      elim (Option-cases (unseal (rekey_times noise (ep - s.recv_epoch) c.key) nonce ct)) [
        | inl u ↦ rw (u, open_ahead) (λ e h. same)
        | inr (pt, u) ↦ rw (u, open_ahead) (λ e h. cc h)
      ]

  decrypt_from-Kept :
      (s : Session noise) (c : CipherState noise) (nonce : ℕ) (ct : Bytes)
      → s.recv_state ≡ some c
      → Kept s (decrypt_from noise s c nonce ct)
  unfolding decrypt_from
  decrypt_from-Kept s c nonce ct i = Kept-if s _ _ _ (Kept-same s nonce_exhausted) (
      Kept-if s _ _ _ (open_here-Kept s c nonce ct i) (
        Kept-if s _ _ _ (Kept-same s behind_epoch)
          (Kept-if s _ _ _ (Kept-same s jump_too_large) (open_ahead-Kept s c _ nonce ct))))

  decrypt_at-Kept :
      (s : Session noise) (nonce : ℕ) (ct : Bytes) → Kept s (decrypt_at noise s nonce ct)
  unfolding decrypt_at
  decrypt_at-Kept s nonce ct = elim (Option-cases s.recv_state) [
    | inl i ↦ subst (Kept s) (sym (decrypt_at-none s nonce ct i)) (Kept-same s not_ready)
    | inr (c, i) ↦
        subst (Kept s) (sym (decrypt_at_from noise s c nonce ct i))
          (decrypt_from-Kept s c nonce ct i)
  ]

  same_answers :
      (s s' : Session noise) (nonce : ℕ) (ct : Bytes)
      → LeftAlone s s'
      → (decrypt_at noise s' nonce ct).1 ≡ (decrypt_at noise s nonce ct).1
  same_answers s s' nonce ct same = refl
  same_answers s s' nonce ct (renonced c m i) =
      ap (λ r. r.1) (decrypt_at_from noise (moved s c m) (set_nonce noise c m) nonce ct refl)
      ∙ decrypt_from-moved s c m nonce ct
      ∙ sym (ap (λ r. r.1) (decrypt_at_from noise s c nonce ct i))

  -- A frame that `DecryptAt` refuses, whatever its nonce, changes no answer that it gives afterwards.
  pub decrypt_at_refused :
      (s : Session noise) (nonce : ℕ) (ct : Bytes) (e : SessionError)
      → (decrypt_at noise s nonce ct).1 ≡ err e
      → (nonce' : ℕ) (ct' : Bytes)
      → (decrypt_at noise (decrypt_at noise s nonce ct).0 nonce' ct').1
        ≡ (decrypt_at noise s nonce' ct').1
  decrypt_at_refused s nonce ct e h nonce' ct' =
      same_answers s (decrypt_at noise s nonce ct).0 nonce' ct' (decrypt_at-Kept s nonce ct e h)
