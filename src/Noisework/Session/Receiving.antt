-- ===== src/Noisework/Session/Receiving.antt =====
-- noisework.go: what `DecryptAt` opens, and what a frame that does not authenticate leaves alone.
use mathlib.Core.Path.{subst}
use network_project.Noisework.Cipher.{Noise, CipherState, rekey_times}
use network_project.Noisework.Session.{
  SessionError, max_epoch_jump, max_nonce, epoch_of, Session, open_here, open_ahead, decrypt_from,
  decrypt_at,
}
use network_project.Noisework.Session.Epochs.{rekey_times_from}
use network_project.Noisework.Session.Sending.{key_of}
use network_project.Prelude.{
  ℕ, ◌+◌, ◌-◌, ◌≤◌, ◌<◌, ◌≡◌, refl, sym, ap, ◌∙◌, inl, inr, true, false, some, arith, Bytes, ltb,
  ◌==◌, Bool-cases, Result, ok, ge→ltb,
}

module _ (noise : Noise) where
  open noise use {Key, rekey, seal, unseal}

  -- The receive state has been rekeyed to its epoch, from the root key of the handshake.
  pub record CanReceive (root : Key) (s : Session noise) : Type 0 where
    pub state : CipherState noise
    pub is_state : s.recv_state ≡ some state
    pub scheduled : state.key ≡ rekey_times noise s.recv_epoch root

  -- The epochs that a receive state at `epoch` opens.
  abbrev pub InReach : ℕ → ℕ → Type 0
  InReach epoch ep = (epoch ≤ ep) × (ep ≤ epoch + max_epoch_jump)

  -- What opening a frame leaves behind: the receive state stands at the epoch `ep`.
  abbrev pub Opened : Key → Session noise → ℕ → Session noise → Type 0
  Opened root s ep s' = CanReceive root s' × (s'.recv_epoch ≡ ep) × (s'.rekey_every ≡ s.rekey_every)

  open_here_eq :
      (s : Session noise) (c : CipherState noise) (nonce : ℕ) (ct pt : Bytes)
      → unseal c.key nonce ct ≡ some pt
      → open_here noise s c nonce ct
        ≡ (record s { recv_state = some (record { key = c.key; n = nonce + 1 }) }, ok pt)
  unfolding open_here
  open_here_eq s c nonce ct pt e = rw (e, open_here)

  open_ahead_eq :
      (s : Session noise) (c : CipherState noise) (ep nonce : ℕ) (ct pt : Bytes)
      → unseal (rekey_times noise (ep - s.recv_epoch) c.key) nonce ct ≡ some pt
      → open_ahead noise s c ep nonce ct ≡ (
        record s {
          recv_state =
              some (record { key = rekey_times noise (ep - s.recv_epoch) c.key; n = nonce + 1 });
          recv_epoch = ep;
        },
        ok pt,
      )
  unfolding open_ahead
  open_ahead_eq s c ep nonce ct pt e = rw (e, open_ahead)

  pub decrypt_at_from :
      (s : Session noise) (c : CipherState noise) (nonce : ℕ) (ct : Bytes)
      → s.recv_state ≡ some c
      → decrypt_at noise s nonce ct ≡ decrypt_from noise s c nonce ct
  unfolding decrypt_at
  decrypt_at_from s c nonce ct i = simp (i, decrypt_at)

  decrypt_at_here :
      (s : Session noise) (c : CipherState noise) (nonce : ℕ) (ct : Bytes)
      → s.recv_state ≡ some c
      → nonce ≤ max_nonce
      → epoch_of nonce s.rekey_every ≡ s.recv_epoch
      → decrypt_at noise s nonce ct ≡ open_here noise s c nonce ct
  unfolding decrypt_from
  decrypt_at_here s c nonce ct i f e =
      let within : ltb max_nonce nonce ≡ false = ge→ltb max_nonce nonce f in
      let same : (epoch_of nonce s.rekey_every == s.recv_epoch) ≡ true = ground (arith, e) in
      decrypt_at_from s c nonce ct i ∙ rw (within, decrypt_from) (rw same refl)

  decrypt_at_ahead :
      (s : Session noise) (c : CipherState noise) (nonce : ℕ) (ct : Bytes)
      → s.recv_state ≡ some c
      → nonce ≤ max_nonce
      → s.recv_epoch < epoch_of nonce s.rekey_every
      → epoch_of nonce s.rekey_every ≤ s.recv_epoch + max_epoch_jump
      → decrypt_at noise s nonce ct ≡ open_ahead noise s c (epoch_of nonce s.rekey_every) nonce ct
  unfolding decrypt_from
  decrypt_at_ahead s c nonce ct i f lo hi =
      let ep = epoch_of nonce s.rekey_every in
      let within : ltb max_nonce nonce ≡ false = ge→ltb max_nonce nonce f in
      let other : (ep == s.recv_epoch) ≡ false = ground (arith, lo) in
      let after : ltb ep s.recv_epoch ≡ false = ge→ltb ep s.recv_epoch (omega (arith, lo)) in
      let near : ltb max_epoch_jump (ep - s.recv_epoch) ≡ false =
        ge→ltb max_epoch_jump (ep - s.recv_epoch) (omega (arith, hi)) in
      decrypt_at_from s c nonce ct i
      ∙ rw (within, decrypt_from) (rw other (rw after (rw near refl)))

  abbrev Received :
      Key → Session noise → ℕ → Bytes → Session noise × Result SessionError Bytes → Type 0
  Received root s ep pt r = (r.1 ≡ ok pt) × Opened root s ep r.0

  -- A frame in reach whose ciphertext opens under the key of its epoch is opened, in or out of order,
  -- and the receive state moves to that epoch.
  pub decrypt_at-Opened :
      (root : Key) (s : Session noise) (nonce : ℕ) (ct pt : Bytes)
      → CanReceive root s
      → nonce ≤ max_nonce
      → InReach s.recv_epoch (epoch_of nonce s.rekey_every)
      → unseal (key_of noise root s.rekey_every nonce) nonce ct ≡ some pt
      → ((decrypt_at noise s nonce ct).1 ≡ ok pt)
        × Opened root s (epoch_of nonce s.rekey_every) (decrypt_at noise s nonce ct).0
  decrypt_at-Opened root s nonce ct pt v f r e =
      let ep = epoch_of nonce s.rekey_every in
      let go = Received root s ep pt in
      elim (Bool-cases (ep == s.recv_epoch)) [
        | inl here ↦
            let same : ep ≡ s.recv_epoch = ground (arith, here) in
            let key : v.state.key ≡ key_of noise root s.rekey_every nonce =
              v.scheduled ∙ ap (λ (i : ℕ). rekey_times noise i root) (sym same) in
            let opens : unseal v.state.key nonce ct ≡ some pt =
              ap (λ (k : Key). unseal k nonce ct) key ∙ e in
            subst go
              (sym (
                decrypt_at_here s v.state nonce ct v.is_state f same
                ∙ open_here_eq s v.state nonce ct pt opens))
              (
                refl,
                (
                  record {
                    state = record { key = v.state.key; n = nonce + 1 };
                    is_state = refl;
                    scheduled = v.scheduled;
                  },
                  sym same,
                  refl,
                ),
              )
        | inr ahead ↦
            let key : rekey_times noise (ep - s.recv_epoch) v.state.key
                ≡ key_of noise root s.rekey_every nonce =
              ap (rekey_times noise (ep - s.recv_epoch)) v.scheduled
              ∙ rekey_times_from noise s.recv_epoch ep root r.0 in
            let opens : unseal (rekey_times noise (ep - s.recv_epoch) v.state.key) nonce ct
                ≡ some pt =
              ap (λ (k : Key). unseal k nonce ct) key ∙ e in
            subst go
              (sym (
                decrypt_at_ahead s v.state nonce ct v.is_state f (ground (arith, ahead, r)) r.1
                ∙ open_ahead_eq s v.state ep nonce ct pt opens))
              (
                refl,
                (
                  record {
                    state = record {
                      key = rekey_times noise (ep - s.recv_epoch) v.state.key;
                      n = nonce + 1;
                    };
                    is_state = refl;
                    scheduled = key;
                  },
                  refl,
                  refl,
                ),
              )
      ]
