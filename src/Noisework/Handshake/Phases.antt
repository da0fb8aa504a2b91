-- ===== src/Noisework/Handshake/Phases.antt =====
-- noisework.go: a role machine goes through its phases in order, and through each one once.
use network_project.Prelude.{
  ℕ, suc, ◌≡◌, refl, inl, inr, Bool, true, false, List, [], ◌∷◌, Option, none, some, Bytes, take,
  if◌then◌else◌, Bool-cases, Option-cases, Result, ok, err, equal,
}
use network_project.Noisework.Cipher.{Noise}
use network_project.Noisework.Handshake.{
  NoiseXx, Phase, at_start, at_message1, at_message2, at_complete, HandshakeError, Established,
  Initiator, Responder, message1, read_message2, write_message3, read_message1, message2,
  read_message3,
}

-- the phases that are ahead
abbrev pub ahead : Phase → List Phase
ahead at_start = at_message1 ∷ at_message2 ∷ at_complete ∷ []
ahead at_message1 = at_message2 ∷ at_complete ∷ []
ahead at_message2 = at_complete ∷ []
ahead at_complete = []

-- one of the three methods of a role, called with what came from the network
pub data Call : Type 0 where
  first second third : Bytes → Call

-- A call that works goes one phase ahead, and one that does not stays.
Advances : Phase → Phase × Bool → Type 0
Advances p (q, true) = ahead p ≡ q ∷ ahead q
Advances p (q, false) = q ≡ p

-- what a run reports: the phases that are ahead, in order, as far as it goes
abbrev pub InOrder : Phase → List Phase → Type 0
InOrder ph qs = (n : ℕ) × (qs ≡ take n (ahead ph))

InOrder-step :
    (ph : Phase) (r : Phase × Bool) (rest : List Phase)
    → Advances ph r
    → InOrder r.0 rest
    → InOrder ph (if r.1 then r.0 ∷ rest else rest)
unfolding Advances
InOrder-step ph (q, true) rest a (n, e) = (suc n, rw (a, e) refl)
InOrder-step ph (q, false) rest a (n, e) = (n, rw (← a) e)

module _ (noise : Noise) (xx : NoiseXx noise) where
  open xx use {State, new_state, write_message, read_message, remote_static}

  abbrev pub worked {ℓ} : {A : Type ℓ} → Result HandshakeError A → Bool
  worked (ok _) = true
  worked (err _) = false

  abbrev pub initiator_call : Initiator noise xx → Call → Initiator noise xx × Bool
  initiator_call i (first _) = let (i', r) = message1 noise xx i in (i', worked r)
  initiator_call i (second msg) = let (i', r) = read_message2 noise xx i msg in (i', worked r)
  initiator_call i (third _) = let (i', r) = write_message3 noise xx i in (i', worked r)

  -- the phase after each call that gave no error
  unfoldable pub initiator_phases : Initiator noise xx → List Call → List Phase
  initiator_phases i [] = []
  initiator_phases i (c ∷ cs) =
      let (i', ok_) = initiator_call i c in
      let rest = initiator_phases i' cs in if ok_ then i'.phase ∷ rest else rest

  abbrev initiator_moves : Initiator noise xx → Call → Phase × Bool
  initiator_moves i c = let (i', worked_) = initiator_call i c in (i'.phase, worked_)

  module _ (st : State) (expected : Bytes) (session : Option (Established noise xx)) where
    abbrev initiator_at : Phase → Initiator noise xx
    initiator_at ph = record { state = st; expected = expected; session = session; phase = ph }

    message1-Advances :
        (ph : Phase) (msg : Bytes) → Advances ph (initiator_moves (initiator_at ph) (first msg))
    unfolding message1 Advances
    message1-Advances at_start msg = elim (Option-cases (write_message st).1) [
      | inl e ↦ simp (e, message1) refl
      | inr (x, e) ↦ simp (e, message1) refl
    ]
    message1-Advances _ msg = refl

    read_message2-Advances :
        (ph : Phase) (msg : Bytes) → Advances ph (initiator_moves (initiator_at ph) (second msg))
    unfolding read_message2 Advances
    read_message2-Advances at_message1 msg = elim (Option-cases (read_message st msg).1) [
      | inl e ↦ simp (e, read_message2) refl
      | inr (x, e) ↦ elim (Bool-cases (equal (remote_static (read_message st msg).0) expected)) [
        | inl k ↦ simp (e, read_message2, k) refl
        | inr k ↦ simp (e, read_message2, k) refl
      ]
    ]
    read_message2-Advances _ msg = refl

    write_message3-Advances :
        (ph : Phase) (msg : Bytes) → Advances ph (initiator_moves (initiator_at ph) (third msg))
    unfolding write_message3 Advances
    write_message3-Advances at_message2 msg = elim (Option-cases (write_message st).1) [
      | inl e ↦ simp (e, write_message3) refl
      | inr ((m, some a, some b), e) ↦ simp (e, write_message3) refl
      | inr ((m, some a, none), e) ↦ simp (e, write_message3) refl
      | inr ((m, none, b), e) ↦ simp (e, write_message3) refl
    ]
    write_message3-Advances _ msg = refl

  initiator_call-Advances :
      (i : Initiator noise xx) (c : Call) → Advances i.phase (initiator_moves i c)
  initiator_call-Advances i (first msg) = message1-Advances i.state i.expected i.session i.phase msg
  initiator_call-Advances i (second msg) =
      read_message2-Advances i.state i.expected i.session i.phase msg
  initiator_call-Advances i (third msg) =
      write_message3-Advances i.state i.expected i.session i.phase msg

  initiator_phases-InOrder :
      (i : Initiator noise xx) (cs : List Call) → InOrder i.phase (initiator_phases i cs)
  unfolding initiator_phases
  initiator_phases-InOrder i [] = (0, refl)
  initiator_phases-InOrder i (c ∷ cs) =
      let next = (initiator_call i c).0 in
      InOrder-step i.phase (initiator_moves i c) (initiator_phases next cs)
        (initiator_call-Advances i c) (initiator_phases-InOrder next cs)

  abbrev pub responder_call : Responder noise xx → Call → Responder noise xx × Bool
  responder_call r (first msg) = let (r', x) = read_message1 noise xx r msg in (r', worked x)
  responder_call r (second _) = let (r', x) = message2 noise xx r in (r', worked x)
  responder_call r (third msg) = let (r', x) = read_message3 noise xx r msg in (r', worked x)

  unfoldable pub responder_phases : Responder noise xx → List Call → List Phase
  responder_phases r [] = []
  responder_phases r (c ∷ cs) =
      let (r', ok_) = responder_call r c in
      let rest = responder_phases r' cs in if ok_ then r'.phase ∷ rest else rest

  abbrev responder_moves : Responder noise xx → Call → Phase × Bool
  responder_moves r c = let (r', worked_) = responder_call r c in (r'.phase, worked_)

  module _ (st : State) (session : Option (Established noise xx)) where
    abbrev responder_at : Phase → Responder noise xx
    responder_at ph = record { state = st; session = session; phase = ph }

    read_message1-Advances :
        (ph : Phase) (msg : Bytes) → Advances ph (responder_moves (responder_at ph) (first msg))
    unfolding read_message1 Advances
    read_message1-Advances at_start msg = elim (Option-cases (read_message st msg).1) [
      | inl e ↦ simp (e, read_message1) refl
      | inr (x, e) ↦ simp (e, read_message1) refl
    ]
    read_message1-Advances _ msg = refl

    message2-Advances :
        (ph : Phase) (msg : Bytes) → Advances ph (responder_moves (responder_at ph) (second msg))
    unfolding message2 Advances
    message2-Advances at_message1 msg = elim (Option-cases (write_message st).1) [
      | inl e ↦ simp (e, message2) refl
      | inr (x, e) ↦ simp (e, message2) refl
    ]
    message2-Advances _ msg = refl

    read_message3-Advances :
        (ph : Phase) (msg : Bytes) → Advances ph (responder_moves (responder_at ph) (third msg))
    unfolding read_message3 Advances
    read_message3-Advances at_message2 msg = elim (Option-cases (read_message st msg).1) [
      | inl e ↦ simp (e, read_message3) refl
      | inr ((some a, some b), e) ↦ simp (e, read_message3) refl
      | inr ((some a, none), e) ↦ simp (e, read_message3) refl
      | inr ((none, b), e) ↦ simp (e, read_message3) refl
    ]
    read_message3-Advances _ msg = refl

  responder_call-Advances :
      (r : Responder noise xx) (c : Call) → Advances r.phase (responder_moves r c)
  responder_call-Advances r (first msg) = read_message1-Advances r.state r.session r.phase msg
  responder_call-Advances r (second msg) = message2-Advances r.state r.session r.phase msg
  responder_call-Advances r (third msg) = read_message3-Advances r.state r.session r.phase msg

  responder_phases-InOrder :
      (r : Responder noise xx) (cs : List Call) → InOrder r.phase (responder_phases r cs)
  unfolding responder_phases
  responder_phases-InOrder r [] = (0, refl)
  responder_phases-InOrder r (c ∷ cs) =
      let next = (responder_call r c).0 in
      InOrder-step r.phase (responder_moves r c) (responder_phases next cs)
        (responder_call-Advances r c) (responder_phases-InOrder next cs)

  -- However the methods of an initiator and of a responder are called, with whatever messages: the
  -- calls that give no error take the role through the phases that are ahead of it, in order, without
  -- a gap and each of them once. So a handshake ends at most once, and its ciphers are given out once.
  pub phases-InOrder :
      (i : Initiator noise xx) (r : Responder noise xx) (cs ds : List Call)
      → InOrder i.phase (initiator_phases i cs) × InOrder r.phase (responder_phases r ds)
  phases-InOrder i r cs ds = (initiator_phases-InOrder i cs, responder_phases-InOrder r ds)
