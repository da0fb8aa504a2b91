-- ===== src/Protocol/Reading.antt =====
-- protocol.go: what `ReadLine` returns.
use network_project.Prelude.{
  ℕ, zero, suc, ◌+◌, ◌≤◌, ◌<◌, ◌≡◌, refl, ap, ◌∙◌, ◌≢◌, inl, inr, false, [], ◌∷◌, ◌++◌, none, some,
  arith, Bytes, All, length, ltb, ◌==◌, Bool-cases, Option-cases, length-append, ltb→ge,
}
use network_project.Protocol.{
  max_control_line, ReadError, eof_error, line_too_long, buffer_full, read_slice, read_line_from,
  read_line,
}

-- a slice that fills the buffer has its length
read_slice_full :
    (size : ℕ) (bs : Bytes)
    → (read_slice size bs).1 ≡ some buffer_full
    → length (read_slice size bs).0 ≡ size
unfolding read_slice
read_slice_full zero bs h = refl
read_slice_full (suc size) [] h = ground arith
read_slice_full (suc size) (b ∷ bs) h = ground (arith, read_slice_full size bs)

-- Enough rounds: the total grows by a byte at least, and stops the loop.
read_line_from_total :
    (rounds size total : ℕ) (bs : Bytes)
    → 0 < size
    → max_control_line + 1 < rounds + total
    → total ≤ max_control_line
    → read_line_from rounds size total bs ≢ none
unfolding read_line_from
read_line_from_total zero size total bs p f t = absurd (omega arith)
read_line_from_total (suc rounds) size total bs p f t =
    let total' = total + length (read_slice size bs).0 in
    elim (Bool-cases (ltb max_control_line total')) [
      | inl over ↦ ground (arith, over)
      | inr within ↦ elim (Option-cases (read_slice size bs).1) [
        | inl e ↦ ground (arith, within, e)
        | inr (x, e) ↦
            chunk x e (ltb→ge max_control_line total' within) within
              (λ f' t'. read_line_from_total rounds size total' (read_slice size bs).2 p f' t')
      ]
    ]
  where
    chunk :
        (x : ReadError)
        → (read_slice size bs).1 ≡ some x
        → total + length (read_slice size bs).0 ≤ max_control_line
        → ltb max_control_line (total + length (read_slice size bs).0) ≡ false
        → (max_control_line + 1 < rounds + (total + length (read_slice size bs).0)
            → total + length (read_slice size bs).0 ≤ max_control_line
            → read_line_from rounds size
                (total + length (read_slice size bs).0)
                (read_slice size bs).2
              ≢ none)
        → read_line_from (suc rounds) size total bs ≢ none
    chunk eof_error e h within on = ground (arith, within, e)
    chunk line_too_long e h within on = ground (arith, within, e)
    chunk buffer_full e h within on =
        let grows = read_slice_full size bs e in ground (arith, within, e, on (omega arith) h)

-- With a buffer of a byte or more, `ReadLine` returns: its loop reads 65,538 chunks at most.
pub read_line_total : (size : ℕ) (bs : Bytes) → 0 < size → read_line size bs ≢ none
unfolding read_line
read_line_total size bs p =
    read_line_from_total (max_control_line + 2) size 0 bs p (omega arith) (omega arith)

-- bytes without a newline
abbrev pub NoNewline : Bytes → Type 0
NoNewline = All (λ b. b ≢ 10)

read_slice_line :
    (line rest : Bytes) (size : ℕ)
    → NoNewline line
    → length line < size
    → read_slice size (line ++ (10 ∷ rest)) ≡ (line ++ (10 ∷ []), none, rest)
unfolding read_slice
read_slice_line line rest zero n h = absurd (omega arith)
read_slice_line [] rest (suc size) n h = refl
read_slice_line (b ∷ line) rest (suc size) n h =
    let other : (b == 10) ≡ false = ground (arith, n.0) in
    rw (read_slice_line line rest size n.1 (omega arith)) (rw other refl)

-- a chunk that fills the buffer
read_slice_chunk :
    (chunk rest : Bytes) (b : ℕ)
    → NoNewline chunk
    → read_slice (length chunk) (chunk ++ (b ∷ rest)) ≡ (chunk, some buffer_full, b ∷ rest)
unfolding read_slice
read_slice_chunk [] rest b n = refl
read_slice_chunk (c ∷ chunk) rest b n =
    let other : (c == 10) ≡ false = ground (arith, n.0) in
    rw (read_slice_chunk chunk rest b n.1) (rw other refl)

-- a round whose chunk ends the line
read_line_from_last :
    (rounds size total : ℕ) (bs line rest : Bytes)
    → read_slice size bs ≡ (line, none, rest)
    → total + length line ≤ max_control_line
    → read_line_from (suc rounds) size total bs ≡ some (line, none, rest)
unfolding read_line_from
read_line_from_last rounds size total bs line rest e h =
    ground (arith, ap (λ r. r.0) e, ap (λ r. r.1) e, ap (λ r. r.2) e)

-- a round whose chunk does not
read_line_from_more :
    (rounds size total : ℕ) (bs line rest : Bytes)
    → read_slice size bs ≡ (line, some buffer_full, rest)
    → total + length line ≤ max_control_line
    → read_line_from (suc rounds) size total bs
      ≡ read_line_from rounds size (total + length line) rest
unfolding read_line_from
read_line_from_more rounds size total bs line rest e h =
    ground (arith, ap (λ r. r.0) e, ap (λ r. r.1) e, ap (λ r. r.2) e)

read_line_from_line :
    (rounds size total : ℕ) (line rest : Bytes)
    → NoNewline line
    → length line < size
    → total + length line < max_control_line
    → read_line_from (suc rounds) size total (line ++ (10 ∷ rest))
      ≡ some (line ++ (10 ∷ []), none, rest)
read_line_from_line rounds size total line rest n h f =
    read_line_from_last rounds size total (line ++ (10 ∷ rest)) (line ++ (10 ∷ [])) rest
      (read_slice_line line rest size n h) (omega (arith, length-append line (10 ∷ []), f))

-- A line that fits the buffer and the limit is returned with its newline, and nothing after it is read.
pub read_line_line :
    (size : ℕ) (line rest : Bytes)
    → NoNewline line
    → length line < size
    → length line < max_control_line
    → read_line size (line ++ (10 ∷ rest)) ≡ some (line ++ (10 ∷ []), none, rest)
unfolding read_line
read_line_line size line rest n h f = read_line_from_line 65537 size 0 line rest n h (omega arith)

-- Of a line longer than the buffer by less than another, `ReadLine` returns without an error what
-- follows the first chunk: the bytes that filled the buffer are dropped.
pub read_line_tail :
    (chunk line rest : Bytes) (b : ℕ)
    → NoNewline chunk
    → NoNewline (b ∷ line)
    → suc (length line) < length chunk
    → length chunk + suc (length line) < max_control_line
    → read_line (length chunk) (chunk ++ (b ∷ line ++ (10 ∷ rest)))
      ≡ some (b ∷ line ++ (10 ∷ []), none, rest)
unfolding read_line
read_line_tail chunk line rest b n m h f =
    read_line_from_more 65537 (length chunk) 0 (chunk ++ (b ∷ line ++ (10 ∷ rest))) chunk
      (b ∷ line ++ (10 ∷ rest)) (read_slice_chunk chunk (line ++ (10 ∷ rest)) b n)
      (omega (arith, f))
    ∙ read_line_from_line 65536 (length chunk) (0 + length chunk) (b ∷ line) rest m h
        (omega (arith, f))
