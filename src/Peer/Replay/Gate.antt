-- ===== src/Peer/Replay/Gate.antt =====
-- replay.go: what `Accept` does over a sequence of authenticated nonces.
use mathlib.Core.Path.{subst}
use network_project.Prelude.Maybe.{◌>>=◌}
use network_project.Peer.Replay.{ReplayWindow, new_replay_window, accept}
use network_project.Peer.Replay.Refinement.{
  Tracks, new_replay_window-Tracks, check-is_fresh, commit-Tracks,
}
use network_project.Peer.Replay.History.{contains, is_fresh, gate}
use network_project.Prelude.{
  ℕ, ◌+◌, ◌^◌, ◌≤◌, ◌<◌, ◌≡◌, refl, ap, ◌∙◌, inl, inr, Bool, true, false, not, ◌||◌, List, [], ◌∷◌,
  Option, some, arith, All, ◌==◌, if◌then◌else◌, Bool-cases,
}

abbrev pub IsU64 : ℕ → Type 0
IsU64 n = n < 2 ^ 64

-- `Accept` on each nonce in turn.
unfoldable pub accept_all : ReplayWindow → List ℕ → Option (ReplayWindow × List Bool)
accept_all w [] = some (w, [])
accept_all w (n ∷ ns) = do
  (w', fresh) ← accept w n
  (w'', flags) ← accept_all w' ns
  some (w'', fresh ∷ flags)

abbrev Stepped : ReplayWindow → List ℕ → ℕ → Type 0
Stepped w h n =
    (w' : ReplayWindow) × (accept w n ≡ some (w', is_fresh w.size h n))
    × Tracks w' (if is_fresh w.size h n then n ∷ h else h)
    × (w'.size ≡ w.size)

accept-Tracks : (w : ReplayWindow) (h : List ℕ) (n : ℕ) → Tracks w h → n < 2 ^ 64 → Stepped w h n
unfolding accept
accept-Tracks w h n t fits = elim (Bool-cases (is_fresh w.size h n)) [
  | inl fresh ↦
      let (w', e, t', same) = commit-Tracks w h n t fits fresh in
      rw (fresh, check-is_fresh w h n t fits) (w', rw (fresh, e), t', same)
  | inr stale ↦ rw (stale, check-is_fresh w h n t fits) (w, rw stale, t, refl)
]

accept_all-from :
    (ns : List ℕ) (w : ReplayWindow) (h : List ℕ)
    → Tracks w h
    → All IsU64 ns
    → (w' : ReplayWindow) × (accept_all w ns ≡ some (w', (gate w.size h ns).1))
      × Tracks w' (gate w.size h ns).0
unfolding accept_all gate
accept_all-from [] w h t all = (w, refl, t)
accept_all-from (n ∷ ns) w h t (fits, all) =
    let (w', e, t', same) = accept-Tracks w h n t fits in
    let h' = if is_fresh w.size h n then n ∷ h else h in
    let (w'', f, t'') = accept_all-from ns w' h' t' all in
    let g = rw same at f in (w'', rw e (rw g), subst (λ s. Tracks w'' (gate s h' ns).0) same t'')

-- From a new window, `Accept` never panics on a sequence of uint64 nonces, and answers each as the
-- gate of `History` does.
pub accept_all-gate :
    (size : ℕ) (ns : List ℕ)
    → 0 < size
    → size + 63 < 2 ^ 64
    → All IsU64 ns
    → (w : ReplayWindow) × (accept_all (new_replay_window size) ns ≡ some (w, (gate size [] ns).1))
      × Tracks w (gate size [] ns).0
unfolding new_replay_window
accept_all-gate size ns p f all =
    accept_all-from ns (new_replay_window size) [] (new_replay_window-Tracks size p f) all

-- The nonces that were let through, in order.
abbrev pub let_through : List ℕ → List Bool → List ℕ
let_through (n ∷ ns) (true ∷ bs) = n ∷ let_through ns bs
let_through (n ∷ ns) (false ∷ bs) = let_through ns bs
let_through _ _ = []

abbrev pub Distinct : List ℕ → Type 0
Distinct [] = Unit {0}
Distinct (n ∷ h) = (contains n h ≡ false) × Distinct h

contains-cons : (n m : ℕ) (h : List ℕ) → contains n (m ∷ h) ≡ (m == n || contains n h)
unfolding contains
contains-cons n m h = refl

fresh_is_new : (size n : ℕ) (h : List ℕ) → is_fresh size h n ≡ true → contains n h ≡ false
unfolding is_fresh
fresh_is_new size n h e = ground arith

abbrev NewOver : List ℕ → List ℕ → Type 0
NewOver h l = (m : ℕ) → contains m h ≡ true → contains m l ≡ false

gate-Distinct :
    (size : ℕ) (ns h : List ℕ)
    → Distinct (let_through ns (gate size h ns).1) × NewOver h (let_through ns (gate size h ns).1)
unfolding gate
gate-Distinct size [] h = (tt, λ m e. unfold contains in refl)
gate-Distinct size (n ∷ ns) h = elim (Bool-cases (is_fresh size h n)) [
  | inl fresh ↦
      let (d, o) = gate-Distinct size ns (n ∷ h) in
      rw fresh (
        (o n (ground (arith, contains-cons n n h)), d),
        λ m e. ground (
          arith,
          contains-cons m n (let_through ns (gate size (n ∷ h) ns).1),
          o m (ground (arith, contains-cons m n h)),
          fresh_is_new size n h fresh,
        ),
      )
  | inr stale ↦ rw stale (gate-Distinct size ns h)
]

-- No nonce is accepted twice: whatever arrives at a new window, in whatever order, the nonces that
-- `Accept` answers with true are distinct.
pub accept_all-Distinct :
    (size : ℕ) (ns : List ℕ) (w : ReplayWindow) (flags : List Bool)
    → 0 < size
    → size + 63 < 2 ^ 64
    → All IsU64 ns
    → accept_all (new_replay_window size) ns ≡ some (w, flags)
    → Distinct (let_through ns flags)
accept_all-Distinct size ns w flags p f all e =
    let (w', e', t) = accept_all-gate size ns p f all in
    let same : (gate size [] ns).1 ≡ flags = ground (arith, e, e') in
    rw same at (gate-Distinct size ns []).0

zero-IsFresh : (size : ℕ) (h : List ℕ) → is_fresh size h 0 ≡ not (contains 0 h)
unfolding is_fresh
zero-IsFresh size h = ground arith

-- Nonce 0 is not bound by the window: once the window has left it behind, `Accept` lets it through
-- exactly if it has not come yet, and never again after that.
pub accept_zero :
    (w : ReplayWindow) (h : List ℕ)
    → Tracks w h
    → w.size ≤ w.max
    → (0 < w.start)
      × ((w' w'' : ReplayWindow) × (accept w 0 ≡ some (w', not (contains 0 h)))
          × (accept w' 0 ≡ some (w'', false)))
accept_zero w h t past =
    let (w', e, t', same) = accept-Tracks w h 0 t (omega arith) in
    let h' = if is_fresh w.size h 0 then 0 ∷ h else h in
    let (w'', e', _, _) = accept-Tracks w' h' 0 t' (omega arith) in
    let fresh = zero-IsFresh w.size h in
    let known : contains 0 h' ≡ true = ground (arith, zero-IsFresh w.size h, contains-cons 0 0 h) in
    let stale : is_fresh w'.size h' 0 ≡ false = zero-IsFresh w'.size h' ∙ ap not known in
    (
      ground (arith, t.zero_is, t.start_is),
      (w', w'', e ∙ ap (λ b. some (w', b)) fresh, e' ∙ ap (λ b. some (w'', b)) stale),
    )
