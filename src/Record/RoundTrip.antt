-- ===== src/Record/RoundTrip.antt =====
-- record.go: `Frame` and `Parse` are inverse, damaged datagrams are told apart, and a stream of
-- frames is read back frame by frame.
use network_project.Prelude.{
  ℕ, zero, suc, ◌+◌, ◌*◌, ◌/◌, ◌%◌, ◌≤◌, ◌<◌, ◌≡◌, refl, ◌⊎◌, inl, [], ◌∷◌, ◌++◌, some, arith,
  Bytes, AllBytes, length, take-length, take-append, drop-append, length-append, ge→ltb, ok, err,
}
use network_project.Record.{
  too_short, oversized, trailing, frame, parse, eof, unexpected_eof, read_header, read_payload,
  read_full, read_frame, FrameError,
}

pub frame-eq-some :
    (t : ℕ) (payload d : Bytes)
    → frame t payload ≡ some d
    → (length payload ≤ 65535)
      × (d ≡ t ∷ (length payload / 256 % 256) ∷ (length payload % 256) ∷ payload)
unfolding frame
frame-eq-some t payload d h = ground arith

-- `Parse` gives back the type and the payload of every frame that `Frame` builds.
pub parse-frame : (t : ℕ) (payload d : Bytes) → frame t payload ≡ some d → parse d ≡ ok (t, payload)
unfolding parse
parse-frame t payload d h = ground (arith, frame-eq-some t payload d h, take-length payload)

parse_cons-frame :
    (t hi lo : ℕ) (rest payload : Bytes) (u : ℕ)
    → hi < 256
    → lo < 256
    → parse (t ∷ hi ∷ lo ∷ rest) ≡ ok (u, payload)
    → frame u payload ≡ some (t ∷ hi ∷ lo ∷ rest)
unfolding parse frame
parse_cons-frame t hi lo rest payload u h1 h2 h = ground (arith, take-length rest)

-- Conversely, a datagram of bytes that `Parse` accepts is the frame of what it returns.
pub frame-parse :
    (d : Bytes) (t : ℕ) (payload : Bytes)
    → AllBytes d
    → parse d ≡ ok (t, payload)
    → frame t payload ≡ some d
frame-parse (t' ∷ hi ∷ lo ∷ rest) t payload b h =
    parse_cons-frame t' hi lo rest payload t b.1.0 b.1.1.0 h
frame-parse [] t payload b h = unfold parse in ground arith
frame-parse (a ∷ []) t payload b h = unfold parse in ground arith
frame-parse (a ∷ c ∷ []) t payload b h = unfold parse in ground arith

-- After a frame has been cut short anywhere, `Parse` reports it as too short or as oversized.
pub parse_truncated :
    (t x : ℕ) (payload front back : Bytes)
    → frame t payload ≡ some (front ++ (x ∷ back))
    → (parse front ≡ err too_short) ⊎ (parse front ≡ err oversized)
unfolding parse
parse_truncated t x payload [] back h = inl refl
parse_truncated t x payload (a ∷ []) back h = inl refl
parse_truncated t x payload (a ∷ c ∷ []) back h = inl refl
parse_truncated t x payload (a ∷ hi ∷ lo ∷ rest) back h =
    ground (arith, frame-eq-some t payload _ h, length-append rest (x ∷ back))

-- A frame with bytes behind it is refused as trailing.
pub parse_trailing :
    (t x : ℕ) (payload d extra : Bytes)
    → frame t payload ≡ some d
    → parse (d ++ (x ∷ extra)) ≡ err trailing
unfolding parse
parse_trailing t x payload d extra h =
    ground (arith, frame-eq-some t payload d h, length-append payload (x ∷ extra))

pub read_full-append : (xs ys : Bytes) → read_full (length xs) (xs ++ ys) ≡ ok (xs, ys)
unfolding read_full
read_full-append xs ys =
    rw (take-append xs ys, drop-append xs ys)
      (rw (ge→ltb (length (xs ++ ys)) (length xs) (omega (arith, length-append xs ys))))

read_full_header :
    (t hi lo : ℕ) (s : Bytes) → read_full 3 (t ∷ hi ∷ lo ∷ s) ≡ ok (t ∷ hi ∷ lo ∷ [], s)
unfolding read_full
read_full_header t hi lo s = ground arith

read_frame_cons :
    (t hi lo : ℕ) (s payload rest : Bytes)
    → read_full (hi * 256 + lo) s ≡ ok (payload, rest)
    → read_frame (t ∷ hi ∷ lo ∷ s) ≡ ok ((t, payload), rest)
unfolding read_frame
read_frame_cons t hi lo s payload rest h = rw (read_full_header t hi lo s) (rw h)

-- `ReadFrame` takes exactly one frame off a stream, and leaves what follows it.
pub read_frame-frame :
    (t : ℕ) (payload d rest : Bytes)
    → frame t payload ≡ some d
    → read_frame (d ++ rest) ≡ ok ((t, payload), rest)
read_frame-frame t payload d rest h =
    let (fits, e) = frame-eq-some t payload d h in
    let n : length payload / 256 % 256 * 256 + length payload % 256 ≡ length payload =
      omega arith in
    rw e
      (read_frame_cons t _ _ (payload ++ rest) payload rest (rw n (read_full-append payload rest)))

-- the error of `ReadFrame` at the end of a stream, by the bytes of a frame that it holds
abbrev pub eof_error : ℕ → FrameError
eof_error zero = read_header eof
eof_error (suc zero) = read_header unexpected_eof
eof_error (suc (suc zero)) = read_header unexpected_eof
eof_error (suc (suc (suc zero))) = read_payload eof
eof_error _ = read_payload unexpected_eof

-- At the end of a stream that holds only a part of a frame, `ReadFrame` wraps `io.EOF` both for no byte
-- at all and for the bare header, and `io.ErrUnexpectedEOF` for any other part.
pub read_frame_truncated :
    (t x : ℕ) (payload front back : Bytes)
    → frame t payload ≡ some (front ++ (x ∷ back))
    → read_frame front ≡ err (eof_error (length front))
unfolding read_frame read_full
read_frame_truncated t x payload [] back h = refl
read_frame_truncated t x payload (a ∷ []) back h = refl
read_frame_truncated t x payload (a ∷ c ∷ []) back h = refl
read_frame_truncated t x payload (a ∷ hi ∷ lo ∷ []) back h =
    ground (arith, frame-eq-some t payload _ h)
read_frame_truncated t x payload (a ∷ hi ∷ lo ∷ y ∷ rest) back h =
    ground (arith, frame-eq-some t payload _ h, length-append rest (x ∷ back))
