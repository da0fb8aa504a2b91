-- ===== src/Noisework/Session/Epochs.antt =====
-- noisework.go: the key schedule, and the loop of `rekeySendTo`.
use native.Mathlib.Nat.{div-le_self}
use network_project.Noisework.Cipher.{Noise, CipherState, rekeyed, rekey_times}
use network_project.Noisework.Session.{
  default_rekey_every, max_epoch_jump, epoch_of, next64, rekey_loop,
}
use network_project.Prelude.{
  ℕ, zero, suc, ◌+◌, ◌-◌, ◌/◌, ◌^◌, ◌≤◌, ◌<◌, ◌≡◌, sym, ap, ◌∙◌, true, false, arith, ◌==◌,
  if◌then◌else◌,
}

abbrev period : ℕ → ℕ
period every = if every == 0 then default_rekey_every else every

period_pos : (every : ℕ) → 0 < period every
period_pos every = ground arith

div_step : (n d : ℕ) → 0 < d → (n / d ≤ (n + 1) / d) × ((n + 1) / d ≤ n / d + 1)
div_step n d h = grind arith

-- One message more is one epoch more at most.
pub epoch_of_step :
    (n every : ℕ)
    → (epoch_of n every ≤ epoch_of (n + 1) every) × (epoch_of (n + 1) every ≤ epoch_of n every + 1)
epoch_of_step n every = div_step n (period every) (period_pos every)

pub epoch_of-le : (n every : ℕ) → epoch_of n every ≤ n
epoch_of-le n every = div-le_self n (period every)

module _ (noise : Noise) where
  open noise use {Key, rekey, seal, unseal}

  pub rekey_times-add :
      (a b : ℕ) (k : Key)
      → rekey_times noise (a + b) k ≡ rekey_times noise b (rekey_times noise a k)
  rekey_times-add zero b k =
      let e : 0 + b ≡ b = omega arith in ap (λ (n : ℕ). rekey_times noise n k) e
  rekey_times-add (suc a) b k =
      let e : suc a + b ≡ suc (a + b) = omega arith in
      ap (λ (n : ℕ). rekey_times noise n k) e ∙ rekey_times-add a b (rekey k)

  -- the key of an epoch, reached from that of an earlier one
  pub rekey_times_from :
      (a b : ℕ) (root : Key)
      → a ≤ b
      → rekey_times noise (b - a) (rekey_times noise a root) ≡ rekey_times noise b root
  rekey_times_from a b root h =
      let e : a + (b - a) ≡ b = omega arith in
      sym (rekey_times-add a (b - a) root) ∙ ap (λ (n : ℕ). rekey_times noise n root) e

  pub rekey_loop_lem :
      (rounds : ℕ) (c : CipherState noise) (epoch ep : ℕ)
      → rounds ≡ ep - epoch
      → epoch ≤ ep
      → ep < 2 ^ 64
      → ep ≤ epoch + max_epoch_jump
      → rekey_loop noise rounds c epoch ep
        ≡ (record c { key = rekey_times noise rounds c.key }, ep, true)
  unfolding rekey_loop
  rekey_loop_lem zero c epoch ep r h f j = ground arith
  rekey_loop_lem (suc rounds) c epoch ep r h f j =
      let e : next64 epoch ≡ epoch + 1 = omega arith in
      ground (
        arith,
        e,
        rekey_loop_lem rounds (rekeyed noise c) (next64 epoch) ep (omega arith) (omega arith) f
            (omega arith),
      )

  pub rekey_loop_refuses :
      (c : CipherState noise) (epoch ep : ℕ)
      → epoch + max_epoch_jump < ep
      → rekey_loop noise (ep - epoch) c epoch ep ≡ (c, epoch, false)
  rekey_loop_refuses c epoch ep h = go (ep - epoch) (omega arith)
    where
      go : (rounds : ℕ) → 0 < rounds → rekey_loop noise rounds c epoch ep ≡ (c, epoch, false)
      go zero p = absurd (omega arith)
      go (suc rounds) p = unfold rekey_loop in ground arith
