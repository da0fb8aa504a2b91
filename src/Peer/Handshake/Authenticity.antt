-- ===== src/Peer/Handshake/Authenticity.antt =====
-- peer.go: the life of a peer, and whose session it runs.
use network_project.Prelude.{ℕ, ◌≡◌, refl, Option, none, some, Bytes, length}
use mathlib.Core.Path.{subst}
use network_project.Net.{UdpAddr}
use network_project.Noisework.Cipher.{Noise}
use network_project.Peer.Disco.{DataPath}
use network_project.Peer.State.{Installed, Handshakes, Output, Peer, new_peer, close, set_direct_ep}
use network_project.Peer.Data.{DataFrame, encrypt}
use network_project.Peer.Handshake.{handle_frame, resend_hs3, quietly}
use network_project.Peer.Handshake.Identity.{Authentic, After}
use network_project.Peer.Handshake.Frames.{handle_frame-After}
use network_project.Peer.Run.{
  start_run, stop_run, expire_responder, punch, switch_mode, retry_direct, abandon_roaming,
  force_rehandshake,
}
use network_project.Peer.Run.Keeping.{
  KeepsAfter, Keeps-Authentic, switch_mode-Keeps, abandon_roaming-Keeps, expire_responder-Keeps,
  punch-Keeps, retry_direct-Keeps, resend_hs3-Keeps, start_run-Keeps, force_rehandshake-Authentic,
  Sealed, encrypt-Sealed,
}

module _ (noise : Noise) (hs : Handshakes noise) where
  -- A peer from its creation for the static key `key` on. The steps are what the code does in one go,
  -- under the lock of the peer: a datagram, whoever sent it, a payload to send, and each step of `Run`,
  -- with the path that it read before; they come in any order, as those of concurrent calls do.
  pub data Life (key : Bytes) : Peer noise hs → Type 0 where
    born :
        (my_id id : Bytes) (ep relay_addr : Option UdpAddr)
        → Life key (new_peer noise hs my_id id key ep relay_addr)
    framed :
        (p p' : Peer noise hs) (out : Option Output) (addr_string : UdpAddr → Bytes) (now seed : ℕ)
        (src : Option UdpAddr) (datagram : Bytes)
        → Life key p
        → handle_frame noise hs addr_string p now seed src datagram ≡ some (p', out)
        → Life key p'
    moved :
        (p : Peer noise hs) (ep : Option UdpAddr)
        → Life key p
        → Life key (set_direct_ep noise hs p ep)
    ended : (p : Peer noise hs) → Life key p → Life key (close noise hs p)
    sealed :
        (p p' : Peer noise hs) (r : DataFrame noise hs) (now : ℕ) (payload : Bytes)
        → Life key p
        → encrypt noise hs p now payload ≡ some (p', r)
        → Life key p'
    started :
        (p p' : Peer noise hs) (now : ℕ)
        → Life key p
        → start_run noise hs p now ≡ some p'
        → Life key p'
    stopped : (p : Peer noise hs) → Life key p → Life key (stop_run noise hs p)
    expired :
        (p : Peer noise hs) (now : ℕ) → Life key p → Life key (expire_responder noise hs p now)
    punched :
        (p p' : Peer noise hs) (out : Option Output) (now seed : ℕ) (mode : DataPath)
        → Life key p
        → punch noise hs p now seed mode ≡ some (p', out)
        → Life key p'
    switched :
        (p : Peer noise hs) (now : ℕ) (mode : DataPath)
        → Life key p
        → Life key (switch_mode noise hs p now mode)
    resent : (p : Peer noise hs) (now : ℕ) → Life key p → Life key (resend_hs3 noise hs p now).0
    retried :
        (p p' : Peer noise hs) (out : Option Output) (now seed : ℕ)
        → Life key p
        → retry_direct noise hs p now seed ≡ some (p', out)
        → Life key p'
    abandoned :
        (p : Peer noise hs) (now : ℕ) → Life key p → Life key (abandon_roaming noise hs p now)
    renewed :
        (p : Peer noise hs) (now : ℕ) → Life key p → Life key (force_rehandshake noise hs p now)

  After-Authentic :
      (key : Bytes) (r : Option (Peer noise hs × Option Output)) (p : Peer noise hs)
      (out : Option Output)
      → r ≡ some (p, out)
      → After noise hs key r
      → Authentic noise hs key p
  After-Authentic key none p out e v = cc e
  After-Authentic key (some (q, o)) p out e v =
      let same : q ≡ p = cc e in subst (Authentic noise hs key) same v

  KeepsAfter-Authentic :
      (key : Bytes) (p : Peer noise hs) (r : Option (Peer noise hs × Option Output))
      (p' : Peer noise hs) (out : Option Output)
      → r ≡ some (p', out)
      → KeepsAfter noise hs p r
      → Authentic noise hs key p
      → Authentic noise hs key p'
  KeepsAfter-Authentic key p none p' out e k v = cc e
  KeepsAfter-Authentic key p (some (q, o)) p' out e k v =
      let same : q ≡ p' = cc e in
      subst (Authentic noise hs key) same (Keeps-Authentic noise hs key p q k v)

  Sealed-Authentic :
      (key : Bytes) (r : Option (Peer noise hs × DataFrame noise hs)) (p : Peer noise hs)
      (d : DataFrame noise hs)
      → r ≡ some (p, d)
      → Sealed noise hs key r
      → Authentic noise hs key p
  Sealed-Authentic key none p d e v = cc e
  Sealed-Authentic key (some (q, o)) p d e v =
      let same : q ≡ p = cc e in subst (Authentic noise hs key) same v

  Life-Authentic : (key : Bytes) (p : Peer noise hs) → Life key p → Authentic noise hs key p
  unfolding new_peer set_direct_ep close stop_run quietly
  Life-Authentic key _ (born my_id id ep relay_addr) = record {
    expected = refl;
    holder = λ x e. cc e;
  }
  Life-Authentic key _ (framed p p' out addr_string now seed src datagram l e) =
      After-Authentic key (handle_frame noise hs addr_string p now seed src datagram) p' out e (
        handle_frame-After noise hs addr_string key p now seed src datagram
          (Life-Authentic key p l))
  Life-Authentic key _ (moved p ep l) =
      let v = Life-Authentic key p l in record { expected = v.expected; holder = v.holder }
  Life-Authentic key _ (ended p l) =
      let v = Life-Authentic key p l in record { expected = v.expected; holder = v.holder }
  Life-Authentic key _ (sealed p p' r now payload l e) =
      Sealed-Authentic key (encrypt noise hs p now payload) p' r e
        (encrypt-Sealed noise hs key p now payload (Life-Authentic key p l))
  Life-Authentic key _ (started p p' now l e) =
      KeepsAfter-Authentic key p (quietly noise hs (start_run noise hs p now)) p' none
        (rw (e, quietly) refl) (start_run-Keeps noise hs p now) (Life-Authentic key p l)
  Life-Authentic key _ (stopped p l) =
      let v = Life-Authentic key p l in record { expected = v.expected; holder = v.holder }
  Life-Authentic key _ (expired p now l) =
      Keeps-Authentic noise hs key p _ (expire_responder-Keeps noise hs p now)
        (Life-Authentic key p l)
  Life-Authentic key _ (punched p p' out now seed mode l e) =
      KeepsAfter-Authentic key p (punch noise hs p now seed mode) p' out e
        (punch-Keeps noise hs p now seed mode) (Life-Authentic key p l)
  Life-Authentic key _ (switched p now mode l) =
      Keeps-Authentic noise hs key p _ (switch_mode-Keeps noise hs p now mode)
        (Life-Authentic key p l)
  Life-Authentic key _ (resent p now l) =
      Keeps-Authentic noise hs key p _ (resend_hs3-Keeps noise hs p now) (Life-Authentic key p l)
  Life-Authentic key _ (retried p p' out now seed l e) =
      KeepsAfter-Authentic key p (retry_direct noise hs p now seed) p' out e
        (retry_direct-Keeps noise hs p now seed) (Life-Authentic key p l)
  Life-Authentic key _ (abandoned p now l) =
      Keeps-Authentic noise hs key p _ (abandon_roaming-Keeps noise hs p now)
        (Life-Authentic key p l)
  Life-Authentic key _ (renewed p now l) =
      force_rehandshake-Authentic noise hs key p now (Life-Authentic key p l)

  -- Whatever datagrams a peer is given, from anyone, and whatever it sends, retries, switches and
  -- renews, in any order: a session that it has installed authenticated the static key that the peer
  -- was created for, and that key has 32 bytes.
  pub session_authentic :
      (key : Bytes) (p : Peer noise hs) (x : Installed noise)
      → Life key p
      → p.sess ≡ some x
      → (x.peer_static ≡ key) × (length x.peer_static ≡ 32)
  session_authentic key p x l e = (Life-Authentic key p l).holder x e
