-- ===== src/Peer/Replay/Refinement.antt =====
-- replay.go: the bitmap implements the gate of `History`.
use network_project.Peer.Replay.{
  ReplayWindow, new_replay_window, window_start, get_bit, set_bit, check, slide, cleared, advance,
  restart, commit, u64, sub64,
}
use network_project.Peer.Replay.Slide.{word_bit, IsWord, word_bit-slide, slide-IsWord}
use network_project.Peer.Replay.Word.{
  get_bit_lem, set_bit_lem, with_bit, word_bit-with_bit, with_bit-IsWord,
}
use network_project.Peer.Replay.History.{contains, highest, is_fresh, not_contains_above}
use network_project.Bits.{bit-zero}
use mathlib.Core.Path.{subst}
use network_project.Prelude.{
  get_or-replicate, All-replicate, length-replicate, length-set, ℕ, ◌+◌, ◌-◌, ◌/◌, ◌%◌, ◌^◌, ◌≤◌,
  ◌<◌, ◌≡◌, refl, sym, ap, ◌∙◌, inl, inr, Bool, true, false, not, ◌||◌, List, [], ◌∷◌, some, arith,
  All, length, replicate, ltb, leb, ◌==◌, if◌then◌else◌, Bool-cases, ltb→lt, ==_iff,
}

-- The window stands at `m` and its bitmap holds the history `h`.
pub record Slid (w : ReplayWindow) (h : List ℕ) (m : ℕ) : Type 0 where
  pub size_pos : 0 < w.size
  pub size_fits : w.size + 63 < 2 ^ 64
  pub max_is : w.max ≡ m
  pub max_fits : w.max < 2 ^ 64
  pub start_is : w.start ≡ w.max + 1 - w.size
  pub words : All IsWord w.bits
  pub len : length w.bits ≡ (w.size + 63) / 64
  pub zero_is : w.zero_seen ≡ contains 0 h
  pub bits_are :
      (n : ℕ)
      → 0 < n
      → w.start ≤ n
      → word_bit w.bits (n - w.start) ≡ (if contains n h then 1 else 0)

-- Between two calls it stands at the highest nonce accepted.
abbrev pub Tracks : ReplayWindow → List ℕ → Type 0
Tracks w h = Slid w h (highest h)

window_start_lem : (m s : ℕ) → m < 2 ^ 64 → 0 < s → s + 63 < 2 ^ 64 → window_start m s ≡ m + 1 - s
unfolding window_start
window_start_lem m s h k l = ground arith

word_bit-zeros : (n i : ℕ) → word_bit (replicate n 0) i ≡ 0
word_bit-zeros n i = rw (get_or-replicate {A = ℕ} n (i / 64) 0) (bit-zero (i % 64))

pub new_replay_window-Tracks :
    (size : ℕ) → 0 < size → size + 63 < 2 ^ 64 → Tracks (new_replay_window size) []
unfolding new_replay_window contains highest
new_replay_window-Tracks size p f = record {
  size_pos = p;
  size_fits = f;
  max_is = refl;
  max_fits = omega arith;
  start_is = omega arith;
  words = All-replicate IsWord _ 0 (omega arith);
  len = length-replicate {A = ℕ} (u64 (size + 63) / 64) 0 ∙ omega arith;
  zero_is = refl;
  bits_are = λ n h k. word_bit-zeros _ (n - 0);
}

-- the index of a nonce at or above the start, in range
index_lem : (n s : ℕ) → s ≤ n → n < 2 ^ 64 → sub64 n s ≡ n - s
index_lem n s h k = omega arith

module _ (w : ReplayWindow) (h : List ℕ) (n : ℕ) (t : Tracks w h) (fits : n < 2 ^ 64) where
  in_range : w.start ≤ n → n ≤ w.max → (n - w.start) / 64 < length w.bits
  in_range p q = omega (arith, t.len, t.start_is, t.size_pos)

  check_inside : 0 < n → w.start ≤ n → n ≤ w.max → get_bit w (sub64 n w.start) ≡ some (contains n h)
  check_inside z p q =
      rw (index_lem n w.start p fits)
        (get_bit_lem w (n - w.start) (in_range p q) ∙ rw (t.bits_are n z p) (flag (contains n h)))
    where
      flag : (b : Bool) → some (not ((if b then 1 else 0) == 0)) ≡ some b
      flag true = refl
      flag false = refl

  -- `Check` never panics, and answers by the history.
  pub check-is_fresh : check w n ≡ some (is_fresh w.size h n)
  unfolding check is_fresh
  check-is_fresh =
      ground
        (arith, t.max_is, t.zero_is, t.start_is, t.size_pos, check_inside, not_contains_above n h)

contains-cons : (n m : ℕ) (h : List ℕ) → contains n (m ∷ h) ≡ (m == n || contains n h)
unfolding contains
contains-cons n m h = refl

-- Setting the bit of `n`, in a window that covers it, adds it to the history.
place :
    (w : ReplayWindow) (h : List ℕ) (n : ℕ)
    → Slid w h (highest (n ∷ h))
    → 0 < n
    → n ≤ w.max
    → w.start ≤ n
    → (w' : ReplayWindow) × (set_bit w (sub64 n w.start) ≡ some w')
      × Tracks w' (n ∷ h)
      × (w'.size ≡ w.size)
place w h n s z le ge =
    let idx = n - w.start in
    let inside : idx / 64 < length w.bits = omega (arith, s.len, s.start_is, s.size_pos) in
    (
      record w { bits = with_bit w.bits idx },
      rw (index_lem n w.start ge (omega (arith, s.max_fits))) (set_bit_lem w idx inside),
      record {
        size_pos = s.size_pos;
        size_fits = s.size_fits;
        max_is = s.max_is;
        max_fits = s.max_fits;
        start_is = s.start_is;
        words = with_bit-IsWord w.bits idx s.words;
        len = length-set w.bits (idx / 64) _ ∙ s.len;
        zero_is = s.zero_is ∙ ground (arith, contains-cons 0 n h);
        bits_are = λ k p q.
            word_bit-with_bit w.bits idx (k - w.start) inside
            ∙ ground (arith, s.bits_are k p q, contains-cons k n h);
      },
      refl,
    )

-- The first nonce that is not 0 clears the bitmap.
restart-Slid :
    (w : ReplayWindow) (h : List ℕ) (n : ℕ)
    → Tracks w h
    → highest h ≡ 0
    → n < 2 ^ 64
    → Slid (restart w n) h n
restart-Slid w h n t none_yet fits = record {
  size_pos = t.size_pos;
  size_fits = t.size_fits;
  max_is = refl;
  max_fits = fits;
  start_is = window_start_lem n w.size fits t.size_pos t.size_fits;
  words = All-replicate IsWord _ 0 (omega arith);
  len = length-replicate {A = ℕ} (length w.bits) 0 ∙ t.len;
  zero_is = t.zero_is;
  bits_are = λ k p q.
      word_bit-zeros (length w.bits) (k - window_start n w.size)
      ∙ ground (arith, not_contains_above k h (omega arith));
}

-- What `advance` leaves in the bitmap when the start moves up by `shift`.
abbrev moved : ReplayWindow → ℕ → List ℕ
moved w shift =
    if ltb 0 shift
    then (if leb w.size shift then cleared w.bits else slide w.bits shift)
    else w.bits

advance-moved :
    (w : ReplayWindow) (h : List ℕ) (n : ℕ)
    → Tracks w h
    → n < 2 ^ 64
    → w.max < n
    → advance w n
      ≡ record w { bits = moved w (n + 1 - w.size - w.start); start = n + 1 - w.size; max = n }
unfolding advance
advance-moved w h n t fits above =
    let shift : sub64 (n + 1 - w.size) w.start ≡ n + 1 - w.size - w.start =
      omega (arith, t.start_is, t.max_fits) in
    rw (window_start_lem n w.size fits t.size_pos t.size_fits) (rw shift)

module _ (w : ReplayWindow) (h : List ℕ) (t : Tracks w h) (shift : ℕ) where
  slide_fits : shift < w.size → shift / 64 ≤ length w.bits
  slide_fits k = omega (arith, t.len)

  moved-words : All IsWord (moved w shift) × (length (moved w shift) ≡ length w.bits)
  moved-words = elim (Bool-cases (ltb 0 shift)) [
    | inr z ↦ rw z (t.words, refl)
    | inl s ↦ rw s (elim (Bool-cases (leb w.size shift)) [
      | inl far ↦
          rw far
            (All-replicate IsWord _ 0 (omega arith), length-replicate {A = ℕ} (length w.bits) 0)
      | inr near ↦ rw near (slide-IsWord w.bits shift t.words (slide_fits (ground arith)))
    ])
  ]

  -- A nonce at or above the new start keeps its bit.
  word_bit-moved :
      (k : ℕ)
      → 0 < k
      → w.start + shift ≤ k
      → word_bit (moved w shift) (k - (w.start + shift)) ≡ (if contains k h then 1 else 0)
  word_bit-moved k p q = elim (Bool-cases (ltb 0 shift)) [
    | inr z ↦
        let e : k - (w.start + shift) ≡ k - w.start = ground arith in
        rw (z, e) (t.bits_are k p (omega arith))
    | inl s ↦ rw s (elim (Bool-cases (leb w.size shift)) [
      | inl far ↦
          let gone : w.max < k = ground (arith, t.start_is) in
          rw far (
            word_bit-zeros (length w.bits) (k - (w.start + shift))
            ∙ ground (arith, t.max_is, not_contains_above k h))
      | inr near ↦
          let e : k - (w.start + shift) + shift ≡ k - w.start = omega arith in
          rw near (
            word_bit-slide w.bits shift (k - (w.start + shift)) t.words (slide_fits (ground arith))
            ∙ ap (word_bit w.bits) e
            ∙ t.bits_are k p (omega arith))
    ])
  ]

advance-Slid :
    (w : ReplayWindow) (h : List ℕ) (n : ℕ)
    → Tracks w h
    → n < 2 ^ 64
    → w.max < n
    → Slid (advance w n) h n
advance-Slid w h n t fits above =
    let shift = n + 1 - w.size - w.start in
    let e : w.start + shift ≡ n + 1 - w.size = omega (arith, t.start_is) in
    rw (advance-moved w h n t fits above) (record {
      size_pos = t.size_pos;
      size_fits = t.size_fits;
      max_is = refl;
      max_fits = fits;
      start_is = refl;
      words = (moved-words w h t shift).0;
      len = (moved-words w h t shift).1 ∙ t.len;
      zero_is = t.zero_is;
      bits_are = λ k p q.
          ap (λ (s : ℕ). word_bit (moved w shift) (k - s)) (sym e)
          ∙ word_bit-moved w h t shift k p (omega arith);
    })

highest-cons : (n : ℕ) (h : List ℕ) → highest (n ∷ h) ≡ (if ltb (highest h) n then n else highest h)
unfolding highest
highest-cons n h = refl

zero-Tracks :
    (w : ReplayWindow) (h : List ℕ) → Tracks w h → Tracks (record w { zero_seen = true }) (0 ∷ h)
zero-Tracks w h t = record {
  size_pos = t.size_pos;
  size_fits = t.size_fits;
  max_is = t.max_is ∙ ground (arith, highest-cons 0 h);
  max_fits = t.max_fits;
  start_is = t.start_is;
  words = t.words;
  len = t.len;
  zero_is = ground (arith, contains-cons 0 0 h);
  bits_are = λ k p q. t.bits_are k p q ∙ ground (arith, contains-cons k 0 h);
}

above_start :
    (w : ReplayWindow) (h : List ℕ) (n : ℕ)
    → Tracks w h
    → 0 < n
    → is_fresh w.size h n ≡ true
    → w.start ≤ n
unfolding is_fresh
above_start w h n t z fresh = ground (arith, t.start_is, t.max_is)

Slid-at : (w : ReplayWindow) (h : List ℕ) {m k : ℕ} → m ≡ k → Slid w h m → Slid w h k
Slid-at w h e s = subst (Slid w h) e s

abbrev Committed : ReplayWindow → List ℕ → ℕ → Type 0
Committed w h n =
    (w' : ReplayWindow) × (commit w n ≡ some w') × Tracks w' (n ∷ h) × (w'.size ≡ w.size)

commit_nonzero :
    (w : ReplayWindow) (h : List ℕ) (n : ℕ)
    → Tracks w h
    → n < 2 ^ 64
    → is_fresh w.size h n ≡ true
    → (n == 0) ≡ false
    → Committed w h n
unfolding commit
commit_nonzero w h n t fits fresh nz = elim (Bool-cases (w.max == 0)) [
  | inl first ↦
      let none_yet : highest h ≡ 0 = ground (arith, t.max_is) in
      let top : n ≡ highest (n ∷ h) = ground (arith, highest-cons n h) in
      let started = Slid-at (restart w n) h top (restart-Slid w h n t none_yet fits) in
      rw (nz, first)
        (place (restart w n) h n started (ground arith) (omega arith)
          (omega (arith, started.start_is, t.size_pos)))
  | inr later ↦ elim (Bool-cases (ltb w.max n)) [
    | inl above ↦
        let lt = ltb→lt w.max n above in
        let slid = advance-Slid w h n t fits lt in
        let top : n ≡ highest (n ∷ h) = ground (arith, highest-cons n h, t.max_is) in
        let (w', e, t', same) =
          place (advance w n) h n (Slid-at (advance w n) h top slid) (ground arith)
            (omega (arith, slid.max_is))
            (omega (arith, slid.start_is, slid.max_is, slid.size_pos)) in
        rw (nz, later, above) (w', e, t', same ∙ advance_size)
    | inr below ↦
        let top : highest h ≡ highest (n ∷ h) = ground (arith, highest-cons n h, t.max_is) in
        rw (nz, later, below)
          (place w h n (Slid-at w h top t) (ground arith) (ground arith)
            (above_start w h n t (ground arith) fresh))
  ]
]
  where
    advance_size : (advance w n).size ≡ w.size
    advance_size = unfold advance in refl

-- After a nonce that the gate lets through `Commit` does not panic, and the window holds one more.
pub commit-Tracks :
    (w : ReplayWindow) (h : List ℕ) (n : ℕ)
    → Tracks w h
    → n < 2 ^ 64
    → is_fresh w.size h n ≡ true
    → Committed w h n
unfolding commit
commit-Tracks w h n t fits fresh = elim (Bool-cases (n == 0)) [
  | inr nz ↦ commit_nonzero w h n t fits fresh nz
  | inl z ↦
      let e : n ≡ 0 = (==_iff n 0).0 z in
      rw e (record w { zero_seen = true }, refl, zero-Tracks w h t, refl)
]
