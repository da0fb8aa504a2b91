-- ===== src/Agent/Pings/History.antt =====
-- status.go: the history of round-trip times.
use network_project.Prelude.{
  ℕ, zero, suc, ◌≤◌, ◌≡◌, refl, sym, ap, ◌∙◌, inl, inr, List, [], ◌∷◌, Option, none, some, arith,
  Bytes, length, take, ltb, if◌then◌else◌, Bool-cases, equal, equal_iff, ltb→ge,
}
use network_project.Prelude.Assoc.{bytes_Eq, lookup, lookup-insert}
use network_project.Agent.Pings.{Rtts, rtt_history_depth, hist_of, record_rtt}

-- measurements, the newest first
unfoldable pub record_all : List (Bytes × ℕ) → Rtts
record_all [] = record { last_rtt = []; rtt_hist = [] }
record_all ((id, rtt) ∷ ms) = record_rtt (record_all ms) id rtt

-- those of one peer
unfoldable pub measured : Bytes → List (Bytes × ℕ) → List ℕ
measured id [] = []
measured id ((j, rtt) ∷ ms) = let rest = measured id ms in if equal j id then rtt ∷ rest else rest

abbrev pub newest : List ℕ → Option ℕ
newest [] = none
newest (t ∷ _) = some t

take_all : (n : ℕ) (xs : List ℕ) → length xs ≤ n → take n xs ≡ xs
take_all zero [] h = refl
take_all zero (x ∷ xs) h = absurd (let no : ⊥ = omega (arith, h) in no)
take_all (suc n) [] h = refl
take_all (suc n) (x ∷ xs) h = ap (◌∷◌ x) (take_all n xs (omega (arith, h)))

take_less : (n : ℕ) (xs : List ℕ) → take n (take (suc n) xs) ≡ take n xs
take_less zero xs = refl
take_less (suc n) [] = refl
take_less (suc n) (x ∷ xs) = ap (◌∷◌ x) (take_less n xs)

kept_lem :
    (t : ℕ) (xs hist : List ℕ)
    → hist ≡ take rtt_history_depth xs
    → (if ltb rtt_history_depth (length (t ∷ hist))
        then take rtt_history_depth (t ∷ hist)
        else t ∷ hist)
      ≡ take rtt_history_depth (t ∷ xs)
kept_lem t xs hist h =
    let four : take 4 hist ≡ take 4 xs = ap (take 4) h ∙ take_less 4 xs in
    elim (Bool-cases (ltb rtt_history_depth (length (t ∷ hist)))) [
      | inl long ↦ simp long (ap (◌∷◌ t) four)
      | inr short ↦
          let few : length hist ≤ 4 =
            omega (arith, ltb→ge rtt_history_depth (length (t ∷ hist)) short) in
          simp short (ap (◌∷◌ t) (sym (take_all 4 hist few) ∙ four))
    ]

-- After any measurements, in any order of the peers: the history of a peer is its newest measurements,
-- five at most, and what is recorded as its last round-trip time is the newest one.
pub record_all-measured :
    (ms : List (Bytes × ℕ)) (id : Bytes)
    → (hist_of (lookup id (record_all ms).rtt_hist) ≡ take rtt_history_depth (measured id ms))
      × (lookup id (record_all ms).last_rtt ≡ newest (measured id ms))
unfolding record_all measured record_rtt lookup
record_all-measured [] id = (refl, refl)
record_all-measured ((j, t) ∷ ms) id =
    let r = record_all ms in
    let hist = t ∷ hist_of (lookup j r.rtt_hist) in
    let kept = if ltb rtt_history_depth (length hist) then take rtt_history_depth hist else hist in
    let e = lookup-insert j id kept r.rtt_hist in
    let f = lookup-insert j id t r.last_rtt in
    elim (Bool-cases (equal j id)) [
      | inr other ↦
          let (h, l) = record_all-measured ms id in (ap hist_of e ∙ simp other h, f ∙ simp other l)
      | inl same ↦
          let k : measured j ms ≡ measured id ms =
            ap (λ i. measured i ms) ((equal_iff j id).0 same) in
          let h = (record_all-measured ms j).0 ∙ ap (take rtt_history_depth) k in
          (
            ap hist_of e
                ∙ simp same (kept_lem t (measured id ms) (hist_of (lookup j r.rtt_hist)) h),
            f ∙ simp same refl,
          )
    ]
