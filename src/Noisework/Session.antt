-- ===== src/Noisework/Session.antt =====
-- internal/noisework/noisework.go: `Session`. Its cipher states are absent until the handshake is
-- complete; a nil session answers as one without them. `start`, the static key and the channel
-- binding are read elsewhere and stay as the handshake sets them.
pub mod Epochs
pub mod Sending
pub mod Receiving
pub mod Delivery
pub mod Refusal
use network_project.Prelude.{
  ℕ, zero, suc, ◌+◌, ◌-◌, ◌/◌, ◌%◌, ◌^◌, Bool, true, false, not, Option, none, some, Bytes, ltb,
  leb, ◌==◌, if◌then◌else◌, Result, ok, err,
}
use network_project.Noisework.Cipher.{
  Noise, CipherState, set_nonce, rekeyed, encrypt, decrypt, rekey_times,
}

abbrev pub default_rekey_every : ℕ
default_rekey_every = 2 ^ 20

abbrev pub max_epoch_jump : ℕ
max_epoch_jump = 64

-- `^uint64(0) - 1`
abbrev pub max_nonce : ℕ
max_nonce = 2 ^ 64 - 2

abbrev pub max_plaintext_len : ℕ
max_plaintext_len = 65507 - 3 - 8 - 16

pub data SessionError : Type 0 where
  not_ready nonce_exhausted jump_too_large behind_epoch cipher_refused : SessionError

abbrev pub epoch_of : ℕ → ℕ → ℕ
epoch_of nonce rekey_every = nonce / (if rekey_every == 0 then default_rekey_every else rekey_every)

-- uint64
abbrev pub next64 : ℕ → ℕ
next64 n = (n + 1) % 2 ^ 64

module _ (noise : Noise) where
  pub record Session : Type 0 where
    pub send_state : Option (CipherState noise)
    pub recv_state : Option (CipherState noise)
    pub send_count : ℕ
    pub recv_count : ℕ
    pub send_epoch : ℕ
    pub recv_epoch : ℕ
    pub rekey_every : ℕ

  -- The loop of `rekeySendTo` on the send state, with as many rounds as epochs are missing.
  unfoldable pub rekey_loop : ℕ → CipherState noise → ℕ → ℕ → CipherState noise × ℕ × Bool
  rekey_loop zero c epoch ep = (c, epoch, true)
  rekey_loop (suc rounds) c epoch ep =
      let rest = rekey_loop rounds (rekeyed noise c) (next64 epoch) ep in
      if not (ltb epoch ep)
      then (c, epoch, true)
      else if ltb max_epoch_jump (ep - epoch)
      then (c, epoch, false)
      else rest

  -- `s.send` is given as `c`.
  unfoldable pub rekey_send_to :
      Session → CipherState noise → ℕ → Session × CipherState noise × Bool
  rekey_send_to s c nonce =
      let ep = epoch_of nonce s.rekey_every in
      let (c', epoch, done) = rekey_loop (ep - s.send_epoch) c s.send_epoch ep in
      (record s { send_state = some c'; send_epoch = epoch }, c', done)

  -- `SetNonce`, `Encrypt` and the count, on the rekeyed state
  unfoldable pub seal_next :
      Session → CipherState noise → Bytes → Session × Result SessionError (ℕ × Bytes)
  seal_next s c plaintext =
      let c' = set_nonce noise c s.send_count in
      elim (encrypt noise c' plaintext) [
        | none ↦ (record s { send_state = some c' }, err cipher_refused)
        | some (ct, c'') ↦ (
          record s { send_state = some c''; send_count = next64 s.send_count },
          ok (s.send_count, ct),
        )
      ]

  unfoldable pub send_from :
      Session → CipherState noise → Bytes → Session × Result SessionError (ℕ × Bytes)
  send_from s c plaintext =
      if ltb max_nonce s.send_count
      then (s, err nonce_exhausted)
      else let (s1, c1, done) = rekey_send_to s c s.send_count in
        if not done then (s1, err jump_too_large) else seal_next s1 c1 plaintext

  unfoldable pub send : Session → Bytes → Session × Result SessionError (ℕ × Bytes)
  send s plaintext = elim s.send_state [
    | none ↦ (s, err not_ready)
    | some c ↦ send_from s c plaintext
  ]

  -- the case `ep == s.recvEpoch`
  unfoldable pub open_here :
      Session → CipherState noise → ℕ → Bytes → Session × Result SessionError Bytes
  open_here s c nonce ciphertext =
      let c' = set_nonce noise c nonce in
      elim (decrypt noise c' ciphertext) [
        | none ↦ (record s { recv_state = some c' }, err cipher_refused)
        | some (pt, c'') ↦ (record s { recv_state = some c'' }, ok pt)
      ]

  -- the default case: the key runs ahead in a throwaway state, and the live one follows on success
  unfoldable pub open_ahead :
      Session → CipherState noise → ℕ → ℕ → Bytes → Session × Result SessionError Bytes
  open_ahead s c ep nonce ciphertext =
      let key = rekey_times noise (ep - s.recv_epoch) c.key in
      elim (decrypt noise (record { key = key; n = nonce }) ciphertext) [
        | none ↦ (s, err cipher_refused)
        | some (pt, _) ↦ (
          record s { recv_state = some (record { key = key; n = nonce + 1 }); recv_epoch = ep },
          ok pt,
        )
      ]

  unfoldable pub decrypt_from :
      Session → CipherState noise → ℕ → Bytes → Session × Result SessionError Bytes
  decrypt_from s c nonce ciphertext =
      if ltb max_nonce nonce
      then (s, err nonce_exhausted)
      else let ep = epoch_of nonce s.rekey_every in
        if ep == s.recv_epoch
        then open_here s c nonce ciphertext
        else if ltb ep s.recv_epoch
        then (s, err behind_epoch)
        else if ltb max_epoch_jump (ep - s.recv_epoch)
        then (s, err jump_too_large)
        else open_ahead s c ep nonce ciphertext

  unfoldable pub decrypt_at : Session → ℕ → Bytes → Session × Result SessionError Bytes
  decrypt_at s nonce ciphertext = elim s.recv_state [
    | none ↦ (s, err not_ready)
    | some c ↦ decrypt_from s c nonce ciphertext
  ]

  unfoldable pub in_order :
      Session → ℕ → Result SessionError Bytes → Session × Result SessionError Bytes
  in_order s n (ok pt) = (record s { recv_count = next64 n }, ok pt)
  in_order s n (err e) = (s, err e)

  -- `Decrypt`
  unfoldable pub decrypt_next : Session → Bytes → Session × Result SessionError Bytes
  unfolding in_order
  decrypt_next s ciphertext = elim s.recv_state [
    | none ↦ (s, err not_ready)
    | some c ↦
        if ltb max_nonce s.recv_count
        then (s, err nonce_exhausted)
        else let (s', r) = decrypt_at s s.recv_count ciphertext in in_order s' s.recv_count r
  ]
