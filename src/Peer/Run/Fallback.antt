-- ===== src/Peer/Run/Fallback.antt =====
-- peer.go: a peer without a session tries both of its paths in turn.
use network_project.Prelude.{ℕ, ◌≤◌, ◌<◌, ◌≡◌, ◌⊎◌, Bool, true, List, [], ◌∷◌, All}
use network_project.Noisework.Cipher.{Noise}
use network_project.Peer.State.{Handshakes, Output, Peer}
use network_project.Peer.Run.Returning.{Compact}

module _ (noise : Noise) (hs : Handshakes noise) (c : Compact noise hs) (accepts : Output → Bool)
    (taken : (o : Output) → accepts o ≡ true) where
  -- One of the ticks comes after `limit`.
  abbrev pub Outlasts : ℕ → List (ℕ × ℕ) → Type 0
  Outlasts limit [] = ⊥
  Outlasts limit ((now, seed) ∷ ts) = (limit < now) ⊎ Outlasts limit ts

  -- None of the ticks comes after `limit`.
  abbrev pub Within : ℕ → List (ℕ × ℕ) → Type 0
  Within limit ts = All (λ t. t.0 ≤ limit) ts
