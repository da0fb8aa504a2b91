-- ===== src/Peer/Replay/Slide.antt =====
-- replay.go, the word-wise shift of `advance`: bit by bit it moves the bitmap down by `shift`.
use Prim.Native.Nat.{max, bit_or}
use mathlib.Core.List.{append_assoc}
use native.Mathlib.Nat.{div-le_self}
use network_project.Bits.{
  bit, bit-bit_or, bit_shr, bit_mod, bit_shl_low, bit_shl_high, bit_beyond, bit_or-zero,
  zero-bit_or, bit_or-lt,
}
use network_project.Peer.Replay.{u64, or_at, copy_words, spill, shift_words, slide}
use network_project.Prelude.{
  set-append_self, get_or-append_self, get_or-drop, get_or-replicate, length-replicate, length-drop,
  All-get_or, All-drop, All-append, All-replicate, ℕ, zero, suc, ◌+◌, ◌-◌, ◌*◌, ◌/◌, ◌%◌, ◌^◌, ◌≤◌,
  ◌<◌, ◌≡◌, refl, sym, ap, ◌∙◌, ◌⊎◌, inl, inr, true, false, List, [], ◌∷◌, ◌++◌, arith, All, length,
  get_or, set, drop, replicate, ltb, ◌==◌, if◌then◌else◌, Bool-cases, length-append, ltb→lt, ltb→ge,
  ==_iff,
}

-- bit `i` of a bitmap
abbrev pub word_bit : List ℕ → ℕ → ℕ
word_bit ws i = bit (get_or ws (i / 64) 0) (i % 64)

abbrev pub IsWord : ℕ → Type 0
IsWord v = v < 2 ^ 64

snoc_suc : (pre : List ℕ) (j v : ℕ) → j ≡ length pre → suc j ≡ length (pre ++ (v ∷ []))
snoc_suc pre j v h = omega (arith, length-append pre (v ∷ []))

set_next :
    (pre rest : List ℕ) (j x v : ℕ)
    → j ≡ length pre
    → set (pre ++ (x ∷ rest)) j v ≡ (pre ++ (v ∷ [])) ++ rest
set_next pre rest j x v h =
    rw h (set-append_self pre rest x v) ∙ sym (append_assoc pre (v ∷ []) rest)

copy_words_lem :
    (vs pre : List ℕ) (j m d : ℕ)
    → j ≡ length pre
    → m ≡ length vs + d
    → copy_words j vs (pre ++ replicate m 0) ≡ pre ++ (vs ++ replicate d 0)
unfolding copy_words
copy_words_lem [] pre j m d hj hm = let e : m ≡ d = omega arith in rw e
copy_words_lem (v ∷ vs) pre j zero d hj hm = absurd (omega arith)
copy_words_lem (v ∷ vs) pre j (suc m) d hj hm =
    ap (copy_words (suc j) vs) (set_next pre (replicate m 0) j 0 v hj)
    ∙ copy_words_lem vs (pre ++ (v ∷ [])) (suc j) m d (snoc_suc pre j v hj) (omega arith)
    ∙ append_assoc pre (v ∷ []) (vs ++ replicate d 0)

-- The words after the shift by `db`, each from two of the words before.
abbrev shl : ℕ → ℕ → ℕ
shl db v = u64 (v * 2 ^ (64 - db))

abbrev merged : ℕ → List ℕ → List ℕ
merged db [] = []
merged db (v ∷ vs) = bit_or (v / 2 ^ db) (shl db (get_or vs 0 0)) ∷ merged db vs

or_next :
    (pre rest : List ℕ) (j x v : ℕ)
    → j ≡ length pre
    → or_at (pre ++ (x ∷ rest)) j v ≡ pre ++ (bit_or x v ∷ rest)
or_next pre rest j x v h =
    rw h (rw (get_or-append_self pre rest x 0) (set-append_self pre rest x (bit_or x v)))

shl-zero : (db : ℕ) → shl db 0 ≡ 0
shl-zero db = let e : 0 * 2 ^ (64 - db) ≡ 0 = omega arith in ap u64 e

zero_shr : (db : ℕ) → 0 / 2 ^ db ≡ 0
zero_shr db = omega arith

-- One round of the loop, in the middle of the bitmap.
shift_step :
    (db v : ℕ) (pre rest : List ℕ) (j x : ℕ)
    → j ≡ length pre
    → (if v == 0
        then pre ++ (x ∷ 0 ∷ rest)
        else spill db (suc j) v (or_at (pre ++ (x ∷ 0 ∷ rest)) (suc j) (v / 2 ^ db)))
      ≡ pre ++ (bit_or x (shl db v) ∷ (v / 2 ^ db) ∷ rest)
unfolding spill
shift_step db v pre rest j x h = elim (Bool-cases (v == 0)) [
  | inl z ↦
      let e : v ≡ 0 = (==_iff v 0).0 z in rw z (rw (e, shl-zero db, bit_or-zero x, zero_shr db))
  | inr z ↦ rw z (
      ap (λ (l : List ℕ). or_at (or_at l (suc j) (v / 2 ^ db)) j (shl db v))
        (sym (append_assoc pre (x ∷ []) (0 ∷ rest)))
      ∙ ap (λ (l : List ℕ). or_at l j (shl db v))
          (or_next (pre ++ (x ∷ [])) rest (suc j) 0 (v / 2 ^ db) (snoc_suc pre j x h))
      ∙ ap (λ (l : List ℕ). or_at l j (shl db v))
          (append_assoc pre (x ∷ []) (bit_or 0 (v / 2 ^ db) ∷ rest))
      ∙ or_next pre (bit_or 0 (v / 2 ^ db) ∷ rest) j x (shl db v) h
      ∙ rw (zero-bit_or (v / 2 ^ db)))
]

shift_words_from :
    (db : ℕ) (vs pre : List ℕ) (j x m d : ℕ)
    → j ≡ length pre
    → m ≡ length vs + d
    → shift_words db (suc j) vs (pre ++ (x ∷ replicate m 0))
      ≡ pre ++ (bit_or x (shl db (get_or vs 0 0)) ∷ (merged db vs ++ replicate d 0))
unfolding shift_words
shift_words_from db [] pre j x m d hj hm =
    let e : m ≡ d = omega arith in rw (e, shl-zero db, bit_or-zero x)
shift_words_from db (v ∷ vs) pre j x zero d hj hm = absurd (omega arith)
shift_words_from db (v ∷ vs) pre j x (suc m) d hj hm =
    ap (shift_words db (suc (suc j)) vs) (
      shift_step db v pre (replicate m 0) j x hj
      ∙ sym (append_assoc pre (bit_or x (shl db v) ∷ []) ((v / 2 ^ db) ∷ replicate m 0)))
    ∙ shift_words_from db vs (pre ++ (bit_or x (shl db v) ∷ [])) (suc j) (v / 2 ^ db) m d
        (snoc_suc pre j (bit_or x (shl db v)) hj) (omega arith)
    ∙ append_assoc pre (bit_or x (shl db v) ∷ []) _

shift_words_lem :
    (db : ℕ) (vs : List ℕ) (m d : ℕ)
    → m ≡ length vs + d
    → shift_words db 0 vs (replicate m 0) ≡ merged db vs ++ replicate d 0
unfolding shift_words spill
shift_words_lem db [] m d hm = let e : m ≡ d = omega arith in rw e
shift_words_lem db (v ∷ vs) zero d hm = absurd (omega arith)
shift_words_lem db (v ∷ vs) (suc m) d hm =
    ap (shift_words db 1 vs) (first (Bool-cases (v == 0)))
    ∙ shift_words_from db vs [] 0 (v / 2 ^ db) m d refl (omega arith)
  where
    first :
        ((v == 0) ≡ true) ⊎ ((v == 0) ≡ false)
        → (if v == 0 then 0 ∷ replicate m 0 else or_at (0 ∷ replicate m 0) 0 (v / 2 ^ db))
          ≡ (v / 2 ^ db) ∷ replicate m 0
    first (inl z) = let e : v ≡ 0 = (==_iff v 0).0 z in rw z (rw (e, zero_shr db))
    first (inr z) = rw z (rw (zero-bit_or (v / 2 ^ db)))

get_or-merged :
    (db : ℕ) (vs : List ℕ) (d k : ℕ)
    → get_or (merged db vs ++ replicate d 0) k 0
      ≡ bit_or (get_or vs k 0 / 2 ^ db) (shl db (get_or vs (suc k) 0))
get_or-merged db [] d k =
    rw (get_or-replicate {A = ℕ} d k 0, shl-zero db, bit_or-zero (0 / 2 ^ db), zero_shr db)
get_or-merged db (v ∷ vs) d zero = refl
get_or-merged db (v ∷ vs) d (suc k) = get_or-merged db vs d k

get_or-append_zeros : (vs : List ℕ) (d k : ℕ) → get_or (vs ++ replicate d 0) k 0 ≡ get_or vs k 0
get_or-append_zeros [] d k = get_or-replicate d k 0
get_or-append_zeros (v ∷ vs) d zero = refl
get_or-append_zeros (v ∷ vs) d (suc k) = get_or-append_zeros vs d k

-- The two parts of a merged word, at bit `r`.
merged_bit :
    (db a b r : ℕ)
    → r < 64
    → bit (bit_or (a / 2 ^ db) (shl db b)) r ≡ max (bit a (r + db)) (bit (b * 2 ^ (64 - db)) r)
merged_bit db a b r h =
    bit-bit_or (a / 2 ^ db) (shl db b) r ∙ rw (bit_shr a db r, bit_mod (b * 2 ^ (64 - db)) 64 r h)

merged_bit_low :
    (db a b r : ℕ) → r + db < 64 → bit (bit_or (a / 2 ^ db) (shl db b)) r ≡ bit a (r + db)
merged_bit_low db a b r h =
    merged_bit db a b r (omega arith) ∙ omega (arith, bit_shl_low b (64 - db) r (omega arith))

merged_bit_high :
    (db a b r : ℕ)
    → r < 64
    → db < 64
    → 64 ≤ r + db
    → IsWord a
    → bit (bit_or (a / 2 ^ db) (shl db b)) r ≡ bit b (r + db - 64)
merged_bit_high db a b r h k g w =
    let e : r ≡ r + db - 64 + (64 - db) = omega arith in
    let f : bit (b * 2 ^ (64 - db)) r ≡ bit b (r + db - 64) =
      ap (λ (i : ℕ). bit (b * 2 ^ (64 - db)) i) e ∙ bit_shl_high b (64 - db) (r + db - 64) in
    merged_bit db a b r h ∙ omega (arith, f, bit_beyond a 64 (r + db) w g)

word_bit-merged :
    (db : ℕ) (vs : List ℕ) (d i : ℕ)
    → db < 64
    → All IsWord vs
    → word_bit (merged db vs ++ replicate d 0) i ≡ word_bit vs (i + db)
word_bit-merged db vs d i h ws =
    rw (get_or-merged db vs d (i / 64)) (elim (Bool-cases (ltb (i % 64 + db) 64)) [
      | inl low ↦
          let lt = ltb→lt (i % 64 + db) 64 low in
          let q : (i + db) / 64 ≡ i / 64 = omega arith in
          let r : (i + db) % 64 ≡ i % 64 + db = omega arith in
          merged_bit_low db (get_or vs (i / 64) 0) (get_or vs (suc (i / 64)) 0) (i % 64) lt
          ∙ rw (q, r)
      | inr high ↦
          let ge = ltb→ge (i % 64 + db) 64 high in
          let q : (i + db) / 64 ≡ suc (i / 64) = omega arith in
          let r : (i + db) % 64 ≡ i % 64 + db - 64 = omega arith in
          merged_bit_high db (get_or vs (i / 64) 0) (get_or vs (suc (i / 64)) 0) (i % 64)
            (omega arith) h ge (All-get_or IsWord vs (i / 64) 0 ws (omega arith))
          ∙ rw (q, r)
    ])

word_bit-drop : (n : ℕ) (ws : List ℕ) (i : ℕ) → word_bit (drop n ws) i ≡ word_bit ws (i + 64 * n)
word_bit-drop n ws i =
    let q : (i + 64 * n) / 64 ≡ i / 64 + n = omega arith in
    let r : (i + 64 * n) % 64 ≡ i % 64 = omega arith in rw (get_or-drop n ws (i / 64) 0) (rw (q, r))

-- The bitmap after the slide is the bitmap before it, read `shift` bits further on.
pub word_bit-slide :
    (ws : List ℕ) (shift i : ℕ)
    → All IsWord ws
    → shift / 64 ≤ length ws
    → word_bit (slide ws shift) i ≡ word_bit ws (i + shift)
unfolding slide
word_bit-slide ws shift i h fits = elim (Bool-cases (shift % 64 == 0)) [
  | inl z ↦
      let e : i + 64 * (shift / 64) ≡ i + shift = ground arith in
      rw z (
        ap (λ (l : List ℕ). word_bit l i)
          (copy_words_lem (drop (shift / 64) ws) [] 0 (length ws) (shift / 64) refl
            (omega (arith, length-drop (shift / 64) ws)))
        ∙ ap (λ (v : ℕ). bit v (i % 64))
            (get_or-append_zeros (drop (shift / 64) ws) (shift / 64) (i / 64))
        ∙ word_bit-drop (shift / 64) ws i
        ∙ ap (word_bit ws) e)
  | inr z ↦
      let e : i + shift % 64 + 64 * (shift / 64) ≡ i + shift = omega arith in
      rw z (
        ap (λ (l : List ℕ). word_bit l i)
          (shift_words_lem (shift % 64) (drop (shift / 64) ws) (length ws) (shift / 64)
            (omega (arith, length-drop (shift / 64) ws)))
        ∙ word_bit-merged (shift % 64) (drop (shift / 64) ws) (shift / 64) i (omega arith)
            (All-drop IsWord (shift / 64) ws h)
        ∙ word_bit-drop (shift / 64) ws (i + shift % 64)
        ∙ ap (word_bit ws) e)
]

merged-IsWord : (db : ℕ) (vs : List ℕ) → All IsWord vs → All IsWord (merged db vs)
merged-IsWord db [] h = tt
merged-IsWord db (v ∷ vs) (h, t) = (
  bit_or-lt 64 (v / 2 ^ db) (shl db (get_or vs 0 0)) (omega (arith, div-le_self v (2 ^ db)))
      (omega arith),
  merged-IsWord db vs t,
)

length-merged : (db : ℕ) (vs : List ℕ) → length (merged db vs) ≡ length vs
length-merged db [] = refl
length-merged db (v ∷ vs) = ap suc (length-merged db vs)

-- The slide writes words, and as many as there were.
slide_form :
    (ws : List ℕ) (shift : ℕ)
    → All IsWord ws
    → shift / 64 ≤ length ws
    → (ms : List ℕ) × (slide ws shift ≡ ms ++ replicate (shift / 64) 0)
      × (length ms ≡ length ws - shift / 64)
      × All IsWord ms
unfolding slide
slide_form ws shift h fits = elim (Bool-cases (shift % 64 == 0)) [
  | inl z ↦ (
    drop (shift / 64) ws,
    rw z (
        copy_words_lem (drop (shift / 64) ws) [] 0 (length ws) (shift / 64) refl
          (omega (arith, length-drop (shift / 64) ws))),
    length-drop (shift / 64) ws,
    All-drop IsWord (shift / 64) ws h,
  )
  | inr z ↦ (
    merged (shift % 64) (drop (shift / 64) ws),
    rw z (
        shift_words_lem (shift % 64) (drop (shift / 64) ws) (length ws) (shift / 64)
          (omega (arith, length-drop (shift / 64) ws))),
    length-merged (shift % 64) (drop (shift / 64) ws) ∙ length-drop (shift / 64) ws,
    merged-IsWord (shift % 64) (drop (shift / 64) ws) (All-drop IsWord (shift / 64) ws h),
  )
]

pub slide-IsWord :
    (ws : List ℕ) (shift : ℕ)
    → All IsWord ws
    → shift / 64 ≤ length ws
    → All IsWord (slide ws shift) × (length (slide ws shift) ≡ length ws)
slide-IsWord ws shift h fits =
    let (ms, e, n, w) = slide_form ws shift h fits in
    rw e (
      All-append IsWord ms (replicate (shift / 64) 0) w
          (All-replicate IsWord (shift / 64) 0 (omega arith)),
      length-append ms (replicate (shift / 64) 0)
          ∙ omega (arith, length-replicate {A = ℕ} (shift / 64) 0),
    )
