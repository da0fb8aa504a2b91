-- ===== src/Tests/Peers.antt =====
-- peer.go: a responder that is given one datagram.
use network_project.Prelude.{
  ◌≡◌, refl, [], ◌∷◌, Option, none, some, Bytes, length, replicate, equal,
}
use network_project.Net.{UdpAddr}
use network_project.Record.{parse, frame}
use network_project.Peer.State.{
  send_frame, Installed, Handshakes, Output, Peer, new_peer, set_session,
}
use network_project.Peer.Disco.{role_is_initiator}
use network_project.Peer.Handshake.{
  on_hs1, count_hs1, open_hs1, answer_hs1, answer_from_responder, drop_responder, handle_by_path,
  on_hs3, handle_frame,
}
use network_project.Peer.Handshake.Authenticity.{Life, born, framed, session_authentic}
use network_project.Tests.Sessions.{toy, start}

abbrev pub key : Bytes
key = replicate 32 9

abbrev pub link : Installed toy
link = record { session = start; peer_static = key }

-- a handshake whose third message always ends it
abbrev pub toy_handshakes : Handshakes toy
toy_handshakes = record {
  Initiator = Unit {0};
  Responder = Unit {0};
  new_initiator = λ seed b. some tt;
  message1 = λ i. some ([], tt);
  read_message2 = λ i b. some tt;
  write_message3 = λ i. some ([], link, tt);
  new_responder = λ seed. some tt;
  read_message1 = λ r b. some tt;
  message2 = λ r. some ([], tt);
  read_message3 = λ r b. some link;
}

abbrev peer : Peer toy toy_handshakes
peer = record (new_peer toy toy_handshakes (98 ∷ []) (97 ∷ []) key none none) { sess = some link }

-- nonce 2, of the second epoch
abbrev payload : Bytes
payload = 0 ∷ 0 ∷ 0 ∷ 0 ∷ 0 ∷ 0 ∷ 0 ∷ 2 ∷ 6 ∷ 2 ∷ 9 ∷ []

abbrev pub created : Peer toy toy_handshakes
created = new_peer toy toy_handshakes (98 ∷ []) (97 ∷ []) key none none

abbrev pub after : Option (Peer toy toy_handshakes × Option Output) → Peer toy toy_handshakes
after none = created
after (some (p, _)) = p

abbrev pub no_text : UdpAddr → Bytes
no_text a = []

-- message 1, then message 3
abbrev pub greeted : Peer toy toy_handshakes
greeted = after (handle_frame toy toy_handshakes no_text created 5 0 none (1 ∷ 0 ∷ 0 ∷ []))

abbrev pub joined : Peer toy toy_handshakes
joined = after (handle_frame toy toy_handshakes no_text greeted 6 0 none (3 ∷ 0 ∷ 0 ∷ []))

pub greeting :
    handle_frame toy toy_handshakes no_text created 5 0 none (1 ∷ 0 ∷ 0 ∷ []) ≡ some (greeted, none)
unfolding handle_frame handle_by_path on_hs1 count_hs1 open_hs1 answer_hs1 answer_from_responder
    new_peer parse frame send_frame role_is_initiator
greeting = refl

pub joining :
    handle_frame toy toy_handshakes no_text greeted 6 0 none (3 ∷ 0 ∷ 0 ∷ []) ≡ some (joined, none)
unfolding handle_frame handle_by_path on_hs1 count_hs1 open_hs1 answer_hs1 answer_from_responder
    new_peer parse frame send_frame role_is_initiator on_hs3 set_session drop_responder equal
joining = refl

pub installed : joined.sess ≡ some link
unfolding handle_frame handle_by_path on_hs1 count_hs1 open_hs1 answer_hs1 answer_from_responder
    new_peer parse frame send_frame role_is_initiator on_hs3 set_session drop_responder equal
installed = refl

life : Life toy toy_handshakes key joined
life =
    framed greeted joined none no_text 6 0 none (3 ∷ 0 ∷ 0 ∷ [])
      (framed created greeted none no_text 5 0 none (1 ∷ 0 ∷ 0 ∷ [])
        (born (98 ∷ []) (97 ∷ []) none none) greeting)
      joining

session_authentic_example : (link.peer_static ≡ key) × (length link.peer_static ≡ 32)
session_authentic_example = session_authentic toy toy_handshakes key joined link life installed
