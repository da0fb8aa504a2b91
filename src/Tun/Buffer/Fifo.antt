-- ===== src/Tun/Buffer/Fifo.antt =====
-- fake.go: the device is a queue, and a closed one still hands out what it holds.
use network_project.Prelude.{
  ℕ, zero, suc, ◌≤◌, ◌≡◌, refl, sym, ap, ◌∙◌, Bool, true, false, List, [], ◌∷◌, ◌++◌, none, some,
  arith, Bytes, All, length, take, if◌then◌else◌, Result, ok, err,
}
use mathlib.Core.Path.{subst}
use mathlib.Core.List.{append_assoc, append-nil}
use network_project.Tun.Buffer.{
  BufferDevice, DeviceError, device_closed, end_of_file, close, read, write,
}

-- the packets that a device takes
unfoldable pub write_all : BufferDevice → List Bytes → BufferDevice
write_all d [] = d
write_all d (p ∷ ps) = write_all (write d p).0 ps

-- so many reads, into buffers of `n` bytes: the packets up to one that waits or fails
unfoldable pub read_some : BufferDevice → ℕ → ℕ → List Bytes × BufferDevice
read_some d n zero = ([], d)
read_some d n (suc k) = elim (read d n) [
  | none ↦ ([], d)
  | some (d', err _) ↦ ([], d')
  | some (d', ok p) ↦ let (ps, d'') = read_some d' n k in (p ∷ ps, d'')
]

write-open :
    (d : BufferDevice) (p : Bytes)
    → d.closed ≡ false
    → (write d p).0 ≡ record d { buf = d.buf ++ (p ∷ []) }
unfolding write
write-open d p c =
    let q = record d { buf = d.buf ++ (p ∷ []) } in
    subst
      (λ (b : Bool).
        (if◌then◌else◌ {A = BufferDevice × Result DeviceError ℕ} b (d, err device_closed)
          (q, ok (length p))).0
        ≡ q)
      (sym c) refl

write_all-open :
    (d : BufferDevice) (ps : List Bytes)
    → d.closed ≡ false
    → write_all d ps ≡ record d { buf = d.buf ++ ps }
unfolding write_all
write_all-open d [] c = ap (λ (b : List Bytes). record d { buf = b }) (sym (append-nil d.buf))
write_all-open d (p ∷ ps) c =
    let q = record d { buf = d.buf ++ (p ∷ []) } in
    ap (λ (x : BufferDevice). write_all x ps) (write-open d p c)
    ∙ write_all-open q ps c
    ∙ ap (λ (b : List Bytes). record d { buf = b }) (append_assoc d.buf (p ∷ []) ps)

abbrev pub Small : ℕ → Bytes → Type 0
Small n p = length p ≤ n

take-small : (n : ℕ) (p : Bytes) → length p ≤ n → take n p ≡ p
take-small zero [] h = refl
take-small (suc n) [] h = refl
take-small zero (x ∷ p) h = absurd (omega (arith, h))
take-small (suc n) (x ∷ p) h = ap (λ (q : Bytes). x ∷ q) (take-small n p (omega (arith, h)))

read_some-queue :
    (d : BufferDevice) (n : ℕ) (ps qs : List Bytes)
    → All (Small n) ps
    → read_some (record d { buf = ps ++ qs }) n (length ps) ≡ (ps, record d { buf = qs })
unfolding read_some read
read_some-queue d n [] qs h = refl
read_some-queue d n (p ∷ ps) qs h =
    rw (take-small n p h.0) (rw (read_some-queue d n ps qs h.1) refl)

-- What is written to an open device that is empty is read from it in order and whole, by reads whose
-- buffers are large enough, also after it was closed; the read after that reports the end.
pub read_some-write_all :
    (d : BufferDevice) (n : ℕ) (ps : List Bytes)
    → d.closed ≡ false
    → d.buf ≡ []
    → All (Small n) ps
    → (read_some (close (write_all d ps)) n (length ps) ≡ (ps, close d))
      × (read (close d) n ≡ some (close d, err end_of_file))
unfolding read close
read_some-write_all d n ps c e h =
    let same : d.buf ++ ps ≡ ps ++ [] = ap (λ (b : List Bytes). b ++ ps) e ∙ sym (append-nil ps) in
    (
      ap (λ (x : BufferDevice). read_some (close x) n (length ps)) (write_all-open d ps c)
          ∙ ap (λ (b : List Bytes). read_some (record d { buf = b; closed = true }) n (length ps))
              same
          ∙ read_some-queue (close d) n ps [] h
          ∙ ap (λ (b : List Bytes). (ps, record d { buf = b; closed = true })) (sym e),
      simp e refl,
    )
