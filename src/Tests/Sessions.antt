-- ===== src/Tests/Sessions.antt =====
-- noisework.go: a toy cipher that opens what it sealed.
use network_project.Prelude.{
  ℕ, ◌+◌, ◌-◌, ◌^◌, ◌≡◌, refl, ◌&&◌, List, [], ◌∷◌, Option, none, some, arith, Bytes, All, ◌==◌,
  if◌then◌else◌, err,
}
use network_project.Noisework.Cipher.{Noise}
use network_project.Noisework.Session.{
  Session, cipher_refused, send_from, rekey_send_to, rekey_loop, seal_next, send, decrypt_at,
  decrypt_from, open_here,
}
use network_project.Noisework.Session.Sending.{
  CanSend, InRange, IsSealed, Ascending, send_all, send_all-Schedule,
}
use network_project.Noisework.Session.Receiving.{CanReceive}
use network_project.Noisework.Session.Delivery.{
  open_all, StaysInReach, plaintexts, keep, arriving, delivery,
}
use network_project.Noisework.Session.Refusal.{decrypt_at_refused}

-- The ciphertext is the key, the nonce and the plaintext.
abbrev toy_unseal : ℕ → ℕ → Bytes → Option Bytes
toy_unseal k n (j ∷ m ∷ pt) = if (j == k) && (m == n) then some pt else none
toy_unseal k n _ = none

abbrev pub toy : Noise
toy = record {
  Key = ℕ;
  rekey = λ k. k + 1;
  seal = λ k n pt. some (k ∷ n ∷ pt);
  unseal = toy_unseal;
}

toy_law : (k n : ℕ) (pt ct : Bytes) → some (k ∷ n ∷ pt) ≡ some ct → toy_unseal k n ct ≡ some pt
toy_law k n pt ct e = let same : k ∷ n ∷ pt ≡ ct = cc e in rw (← same) (ground arith)

-- two ends that rekey every two messages
abbrev pub start : Session toy
start = record {
  send_state = some (record { key = 5; n = 0 });
  recv_state = some (record { key = 5; n = 0 });
  send_count = 0;
  recv_count = 0;
  send_epoch = 0;
  recv_epoch = 0;
  rekey_every = 2;
}

can_send : CanSend toy 5 start
can_send = record {
  state = record { key = 5; n = 0 };
  is_state = refl;
  scheduled = refl;
  count_fits = omega arith;
  not_behind = omega arith;
  one_ahead = omega arith;
}

can_receive : CanReceive toy 5 start
can_receive = record { state = record { key = 5; n = 0 }; is_state = refl; scheduled = refl }

abbrev texts : List Bytes
texts = (1 ∷ []) ∷ (2 ∷ []) ∷ (3 ∷ []) ∷ []

-- one nonce is left for the three texts
abbrev last : Session toy
last = record start { send_count = 2 ^ 64 - 2; rekey_every = 2 ^ 64 - 1 }

last-CanSend : CanSend toy 5 last
last-CanSend = record {
  state = record { key = 5; n = 0 };
  is_state = refl;
  scheduled = refl;
  count_fits = omega arith;
  not_behind = omega arith;
  one_ahead = omega arith;
}

send_all-Schedule_example :
    Ascending toy (2 ^ 64 - 2) (send_all toy last texts)
    × All (InRange toy) (send_all toy last texts)
    × All (IsSealed toy 5 (2 ^ 64 - 1)) (send_all toy last texts)
send_all-Schedule_example = send_all-Schedule toy 5 last texts last-CanSend

forged : (decrypt_at toy start 0 (7 ∷ [])).1 ≡ err cipher_refused
unfolding decrypt_at decrypt_from open_here
forged = refl

decrypt_at_refused_example :
    (decrypt_at toy (decrypt_at toy start 0 (7 ∷ [])).0 2 (6 ∷ 2 ∷ 9 ∷ [])).1
    ≡ (decrypt_at toy start 2 (6 ∷ 2 ∷ 9 ∷ [])).1
decrypt_at_refused_example =
    decrypt_at_refused toy start 0 (7 ∷ []) cipher_refused forged 2 (6 ∷ 2 ∷ 9 ∷ [])

-- the first message arrives twice, then the third; the second is lost
abbrev order : List ℕ
order = 0 ∷ 0 ∷ 2 ∷ []

in_reach : StaysInReach toy 0 2 (arriving toy (send_all toy start texts) order)
unfolding arriving keep send_all send send_from rekey_send_to rekey_loop seal_next
in_reach =
    ((omega arith, omega arith), ((omega arith, omega arith), ((omega arith, omega arith), tt)))

delivery_example :
    open_all toy start (arriving toy (send_all toy start texts) order)
    ≡ plaintexts toy (arriving toy (send_all toy start texts) order)
delivery_example =
    delivery toy 5 start start texts order toy_law can_send can_receive refl (omega arith) in_reach
