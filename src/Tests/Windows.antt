-- ===== src/Tests/Windows.antt =====
-- replay.go: a small window.
use mathlib.Core.Path.{subst}
use network_project.Prelude.{
  ℕ, ◌^◌, ◌<◌, ◌≡◌, refl, Bool, true, false, not, List, [], ◌∷◌, some, arith, All,
}
use network_project.Peer.Replay.{
  ReplayWindow, new_replay_window, slide, check, commit, accept, advance, window_start, get_bit,
  set_bit, shift_words, copy_words, spill,
}
use network_project.Peer.Replay.Slide.{word_bit, word_bit-slide}
use network_project.Peer.Replay.History.{contains, highest, is_fresh, gate}
use network_project.Peer.Replay.Refinement.{Tracks}
use network_project.Peer.Replay.Gate.{
  IsU64, accept_all, accept_all-gate, Distinct, let_through, accept_all-Distinct, accept_zero,
}

abbrev arrivals : List ℕ
arrivals = 1 ∷ 3 ∷ 1 ∷ 100 ∷ 3 ∷ []

arrivals_fit : All IsU64 arrivals
arrivals_fit = (omega arith, (omega arith, (omega arith, (omega arith, (omega arith, tt)))))

abbrev flags : List Bool
flags = true ∷ true ∷ false ∷ true ∷ false ∷ []

accept_all-gate_example :
    (w : ReplayWindow) × (accept_all (new_replay_window 64) arrivals
      ≡ some (w, (gate 64 [] arrivals).1))
    × Tracks w (gate 64 [] arrivals).0
accept_all-gate_example = accept_all-gate 64 arrivals (omega arith) (omega arith) arrivals_fit

abbrev window : ReplayWindow
window = record {
  size = 64;
  max = 100;
  start = 37;
  bits = 9223372036854775808 ∷ [];
  zero_seen = false;
}

ran : accept_all (new_replay_window 64) arrivals ≡ some (window, flags)
unfolding accept_all accept check commit advance new_replay_window window_start get_bit set_bit
    slide shift_words copy_words spill
ran = refl

accept_all-Distinct_example : Distinct (let_through arrivals flags)
accept_all-Distinct_example =
    accept_all-Distinct 64 arrivals window flags (omega arith) (omega arith) arrivals_fit ran

-- the words of a bitmap of two, read 70 bits further on
abbrev bitmap : List ℕ
bitmap = 3 ∷ 2 ^ 63 ∷ []

word_bit-slide_example : word_bit (slide bitmap 70) 57 ≡ word_bit bitmap 127
word_bit-slide_example = word_bit-slide bitmap 70 57 (omega arith, (omega arith, tt)) (omega arith)

-- the nonce that the window above was brought to
window-Tracks : Tracks window (100 ∷ 3 ∷ 1 ∷ [])
unfolding gate is_fresh contains highest
window-Tracks =
    let (w, e, t) = accept_all-gate 64 arrivals (omega arith) (omega arith) arrivals_fit in
    let same : w ≡ window = cc (e, ran) in subst (λ v. Tracks v (100 ∷ 3 ∷ 1 ∷ [])) same t

accept_zero_example :
    (0 < 37)
    × ((w' w'' : ReplayWindow) × (accept window 0 ≡ some (w', not (contains 0 (100 ∷ 3 ∷ 1 ∷ []))))
        × (accept w' 0 ≡ some (w'', false)))
accept_zero_example = accept_zero window (100 ∷ 3 ∷ 1 ∷ []) window-Tracks (omega arith)
