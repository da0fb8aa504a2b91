-- ===== src/Peer/Data/Once.antt =====
-- peer.go: a DATA frame is handed on at most once.
use network_project.Prelude.{
  ℕ, ◌+◌, ◌%◌, ◌^◌, ◌<◌, ◌≡◌, true, false, ◌||◌, List, ◌∷◌, Option, none, some, Bytes, length, drop,
  ok, err,
}
use network_project.Noisework.Cipher.{Noise}
use network_project.Noisework.Session.{SessionError, decrypt_at}
use network_project.Peer.State.{Installed, Handshakes, Peer}
use network_project.Peer.Replay.History.{contains, is_fresh}
use network_project.Peer.Replay.Refinement.{Tracks}
use network_project.Peer.Data.{u64_at, offer}

module _ (noise : Noise) (hs : Handshakes noise) where
  -- The peer has handed on the nonces `seen` of its session.
  abbrev pub HandedOn : Peer noise hs → List ℕ → Type 0
  HandedOn p seen = Tracks p.replay seen

  -- Why a frame is not handed on: the peer is closed, there is no session, the frame is too short, its
  -- nonce is stale, or the session refuses the rest of it.
  pub data Refused (p : Peer noise hs) (seen : List ℕ) (payload : Bytes) : Type 0 where
    shut : (p.closed || p.recv_closed) ≡ true → Refused p seen payload
    no_session : p.sess ≡ none → Refused p seen payload
    short : length payload < 8 → Refused p seen payload
    stale : is_fresh p.replay.size seen (u64_at payload) ≡ false → Refused p seen payload
    forged :
        (sess : Installed noise) (x : SessionError)
        → p.sess ≡ some sess
        → (decrypt_at noise sess.session (u64_at payload) (drop 8 payload)).1 ≡ err x
        → Refused p seen payload

  -- What a frame leaves: it is refused, and nothing is handed on and no nonce is added, or the session
  -- opens it, and its plaintext is offered to the queue and its nonce, which was new, is added.
  pub data Outcome (p : Peer noise hs) (seen : List ℕ) (payload : Bytes)
      : Peer noise hs → Type 0 where
    kept :
        (p' : Peer noise hs)
        → Refused p seen payload
        → p'.recv ≡ p.recv
        → p'.bytes_rx ≡ p.bytes_rx
        → p'.hs3_pending ≡ p.hs3_pending
        → HandedOn p' seen
        → Outcome p seen payload p'
    handed :
        (p' : Peer noise hs) (sess : Installed noise) (plain : Bytes)
        → contains (u64_at payload) seen ≡ false
        → p.sess ≡ some sess
        → (decrypt_at noise sess.session (u64_at payload) (drop 8 payload)).1 ≡ ok plain
        → p'.sess
          ≡ some (record sess {
            session = (decrypt_at noise sess.session (u64_at payload) (drop 8 payload)).0;
          })
        → p'.recv ≡ offer p.recv plain
        → p'.bytes_rx ≡ (p.bytes_rx + length plain) % 2 ^ 64
        → p'.hs3_pending ≡ false
        → HandedOn p' (u64_at payload ∷ seen)
        → Outcome p seen payload p'

  abbrev Result' : Peer noise hs → List ℕ → Bytes → Option (Peer noise hs) → Type 0
  Result' p seen payload r = (p' : Peer noise hs) × (r ≡ some p') × Outcome p seen payload p'
