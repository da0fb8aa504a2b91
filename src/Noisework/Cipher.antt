-- ===== src/Noisework/Cipher.antt =====
-- The cipher states of github.com/flynn/noise, which noisework.go calls: a key and a nonce, with
-- `Rekey`, `SetNonce`, `Encrypt` and `Decrypt`. The algorithms are a parameter.
use network_project.Prelude.{ℕ, zero, suc, ◌+◌, Option, none, some, Bytes}

-- `none` is an error of the library.
pub record Noise : Type 1 where
  pub Key : Type 0
  pub rekey : Key → Key
  pub seal : Key → ℕ → Bytes → Option Bytes
  pub unseal : Key → ℕ → Bytes → Option Bytes

module _ (noise : Noise) where
  open noise use {Key, rekey, seal, unseal}

  pub record CipherState : Type 0 where
    pub key : Key
    pub n : ℕ

  abbrev pub set_nonce : CipherState → ℕ → CipherState
  set_nonce c nonce = record c { n = nonce }

  abbrev pub rekeyed : CipherState → CipherState
  rekeyed c = record c { key = rekey c.key }

  -- `Encrypt` and `Decrypt` step the nonce where they succeed, and leave the state where they fail.
  abbrev pub encrypt : CipherState → Bytes → Option (Bytes × CipherState)
  encrypt c plaintext = elim (seal c.key c.n plaintext) [
    | none ↦ none
    | some ct ↦ some (ct, record c { n = c.n + 1 })
  ]

  abbrev pub decrypt : CipherState → Bytes → Option (Bytes × CipherState)
  decrypt c ciphertext = elim (unseal c.key c.n ciphertext) [
    | none ↦ none
    | some pt ↦ some (pt, record c { n = c.n + 1 })
  ]

  -- `Rekey`, so many times
  abbrev pub rekey_times : ℕ → Key → Key
  rekey_times zero k = k
  rekey_times (suc i) k = rekey_times i (rekey k)
