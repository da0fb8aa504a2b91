-- ===== src/Noisework/Session/Delivery.antt =====
-- noisework.go: the two ends of a session, joined by a network that drops, repeats and reorders.
use mathlib.Core.Path.{subst}
use network_project.Noisework.Cipher.{Noise}
use network_project.Noisework.Session.{SessionError, max_nonce, epoch_of, Session, decrypt_at}
use network_project.Noisework.Session.Receiving.{CanReceive, InReach, decrypt_at-Opened}
use network_project.Noisework.Session.Sending.{
  key_of, Wire, IsSealed, InRange, CanSend, send_all, send_all-Schedule,
}
use network_project.Prelude.{
  ℕ, zero, suc, ◌+◌, ◌≤◌, ◌≡◌, refl, sym, ap, ◌∙◌, List, [], ◌∷◌, Option, none, some, Bytes, All,
  length, get_elem?, Result, ok,
}

module _ (noise : Noise) where
  open noise use {Key, rekey, seal, unseal}

  -- the answers of `DecryptAt` to a sequence of frames
  unfoldable pub open_all : Session noise → List (Wire noise) → List (Result SessionError Bytes)
  open_all s [] = []
  open_all s (w ∷ ws) = let r = decrypt_at noise s w.nonce w.ciphertext in r.1 ∷ open_all r.0 ws

  -- Each frame is within the epochs that the one before it leaves in reach.
  abbrev pub StaysInReach : ℕ → ℕ → List (Wire noise) → Type 0
  StaysInReach epoch every [] = Unit {0}
  StaysInReach epoch every (w ∷ ws) =
      InReach noise epoch (epoch_of w.nonce every) × StaysInReach (epoch_of w.nonce every) every ws

  abbrev pub plaintexts : List (Wire noise) → List (Result SessionError Bytes)
  plaintexts [] = []
  plaintexts (w ∷ ws) = ok w.plaintext ∷ plaintexts ws

  open_all-plaintexts :
      (root : Key) (every : ℕ) (s : Session noise) (ws : List (Wire noise))
      → ((k : Key) (n : ℕ) (pt ct : Bytes) → seal k n pt ≡ some ct → unseal k n ct ≡ some pt)
      → CanReceive noise root s
      → s.rekey_every ≡ every
      → All (InRange noise) ws
      → All (IsSealed noise root every) ws
      → StaysInReach s.recv_epoch every ws
      → open_all s ws ≡ plaintexts ws
  unfolding open_all
  open_all-plaintexts root every s [] law v p n g r = refl
  open_all-plaintexts root every s (w ∷ ws) law v p n g r =
      let sealed : IsSealed noise root s.rekey_every w =
        subst (λ e. IsSealed noise root e w) (sym p) g.0 in
      let reach : InReach noise s.recv_epoch (epoch_of w.nonce s.rekey_every) =
        subst (λ e. InReach noise s.recv_epoch (epoch_of w.nonce e)) (sym p) r.0 in
      let opens =
        law (key_of noise root s.rekey_every w.nonce) w.nonce w.plaintext w.ciphertext sealed in
      let (a, o) =
        decrypt_at-Opened noise root s w.nonce w.ciphertext w.plaintext v n.0 reach opens in
      let (v', e, q) = o in
      let s' = (decrypt_at noise s w.nonce w.ciphertext).0 in
      let on : StaysInReach s'.recv_epoch every ws =
        subst (λ i. StaysInReach i every ws) (sym (e ∙ ap (λ (k : ℕ). epoch_of w.nonce k) p)) r.1 in
      ap (λ x. x ∷ open_all s' ws) a
      ∙ ap (λ xs. ok w.plaintext ∷ xs)
          (open_all-plaintexts root every s' ws law v' (q ∙ p) n.1 g.1 on)

  unfoldable pub keep : Option (Wire noise) → List (Wire noise) → List (Wire noise)
  keep none ws = ws
  keep (some w) ws = w ∷ ws

  -- What a network delivers of what was sent: frames by their index, in any order, any number of times.
  unfoldable pub arriving : List (Wire noise) → List ℕ → List (Wire noise)
  arriving ws [] = []
  arriving ws (i ∷ is) = keep (get_elem? ws i) (arriving ws is)

  All-get_elem? :
      (P : Wire noise → Type 0) (ws vs : List (Wire noise)) (i : ℕ)
      → All P ws
      → All P vs
      → All P (keep (get_elem? ws i) vs)
  unfolding keep
  All-get_elem? P [] vs i h k = k
  All-get_elem? P (w ∷ ws) vs zero h k = (h.0, k)
  All-get_elem? P (w ∷ ws) vs (suc i) h k = All-get_elem? P ws vs i h.1 k

  All-arriving :
      (P : Wire noise → Type 0) (ws : List (Wire noise)) (is : List ℕ)
      → All P ws
      → All P (arriving ws is)
  unfolding arriving
  All-arriving P ws [] h = tt
  All-arriving P ws (i ∷ is) h = All-get_elem? P ws (arriving ws is) i h (All-arriving P ws is h)

  -- Where a sender and a receiver have keyed up from one root and agree on the rekey interval, and the
  -- cipher opens what it sealed: whatever the order in which frames of a sequence of calls of `Send`
  -- arrive, lost and repeated ones included, `DecryptAt` opens each to its plaintext, if each stays
  -- within the epochs that the one before it leaves in reach.
  pub delivery :
      (root : Key) (s r : Session noise) (ps : List Bytes) (is : List ℕ)
      → ((k : Key) (n : ℕ) (pt ct : Bytes) → seal k n pt ≡ some ct → unseal k n ct ≡ some pt)
      → CanSend noise root s
      → CanReceive noise root r
      → r.rekey_every ≡ s.rekey_every
      → s.send_count + length ps ≤ max_nonce
      → StaysInReach r.recv_epoch s.rekey_every (arriving (send_all noise s ps) is)
      → open_all r (arriving (send_all noise s ps) is)
        ≡ plaintexts (arriving (send_all noise s ps) is)
  delivery root s r ps is law v u same f reach =
      let ws = send_all noise s ps in
      let sealed = send_all-Schedule noise root s ps v in
      open_all-plaintexts root s.rekey_every r (arriving ws is) law u same
        (All-arriving (InRange noise) ws is sealed.1)
        (All-arriving (IsSealed noise root s.rekey_every) ws is sealed.2) reach
