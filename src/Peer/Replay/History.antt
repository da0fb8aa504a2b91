-- ===== src/Peer/Replay/History.antt =====
-- What the replay gate promises, over the history of the nonces that it has let through.
use network_project.Prelude.{
  ℕ, ◌+◌, ◌≤◌, ◌<◌, ◌≡◌, inl, inr, Bool, true, false, not, ◌&&◌, ◌||◌, List, [], ◌∷◌, arith, ltb,
  ◌==◌, if◌then◌else◌, Bool-cases,
}

unfoldable pub contains : ℕ → List ℕ → Bool
contains n [] = false
contains n (m ∷ h) = m == n || contains n h

unfoldable pub highest : List ℕ → ℕ
highest [] = 0
highest (m ∷ h) = if ltb (highest h) m then m else highest h

-- A nonce is fresh if it is new, and is nonce 0 or no further than the window below the highest.
unfoldable pub is_fresh : ℕ → List ℕ → ℕ → Bool
is_fresh size h n = not (contains n h) && (n == 0 || ltb (highest h) (n + size))

-- The gate over a sequence of arrivals: the history, and what it answered.
unfoldable pub gate : ℕ → List ℕ → List ℕ → List ℕ × List Bool
gate size h [] = (h, [])
gate size h (n ∷ ns) =
    let rest = gate size (if is_fresh size h n then n ∷ h else h) ns in
    (rest.0, is_fresh size h n ∷ rest.1)

pub contains-le-highest : (n : ℕ) (h : List ℕ) → contains n h ≡ true → n ≤ highest h
unfolding contains highest
contains-le-highest n [] e = cc
contains-le-highest n (m ∷ h) e = ground (arith, contains-le-highest n h)

pub not_contains_above : (n : ℕ) (h : List ℕ) → highest h < n → contains n h ≡ false
not_contains_above n h lt = elim (Bool-cases (contains n h)) [
  | inl e ↦ absurd (omega (arith, contains-le-highest n h e))
  | inr e ↦ e
]

pub highest-lt : (n b : ℕ) (h : List ℕ) → n < b → highest h < b → highest (n ∷ h) < b
unfolding highest
highest-lt n b h p q = ground arith
