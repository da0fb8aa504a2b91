-- ===== src/Tests/Wire.antt =====
-- The formats: record.go, relay.go's header, nat.go's envelopes and protocol.go's lines.
use network_project.Prelude.{
  ◌≡◌, refl, ◌≢◌, [], ◌∷◌, ◌++◌, Option, none, some, arith, Bytes, AllBytes, ok, err,
}
use network_project.Net.{UdpAddr}
use network_project.Record.{frame, parse, read_frame}
use network_project.Record.RoundTrip.{parse-frame, frame-parse, read_frame_truncated, eof_error}
use network_project.Relay.Packet.{wrap_packet, parse_packet, validate_name}
use network_project.Relay.Packet.RoundTrip.{parse_packet-wrap_packet}
use network_project.Nat.Envelope.{wrap_outbound, unwrap_outbound, check_field}
use network_project.Nat.Envelope.RoundTrip.{unwrap_outbound-wrap_outbound}
use network_project.Protocol.{read_line}
use network_project.Protocol.Reading.{NoNewline, read_line_total, read_line_line, read_line_tail}

abbrev payload : Bytes
payload = 7 ∷ 8 ∷ []

abbrev datagram : Bytes
datagram = 5 ∷ 0 ∷ 2 ∷ 7 ∷ 8 ∷ []

framed : frame 5 payload ≡ some datagram
unfolding frame
framed = refl

parsed : parse datagram ≡ ok (5, payload)
unfolding parse
parsed = refl

all_bytes : AllBytes datagram
all_bytes = (omega arith, (omega arith, (omega arith, (omega arith, (omega arith, tt)))))

parse-frame_example : parse datagram ≡ ok (5, payload)
parse-frame_example = parse-frame 5 payload datagram framed

frame-parse_example : frame 5 payload ≡ some datagram
frame-parse_example = frame-parse datagram 5 payload all_bytes parsed

read_frame_truncated_example : read_frame (5 ∷ 0 ∷ 2 ∷ []) ≡ err (eof_error 3)
read_frame_truncated_example = read_frame_truncated 5 7 payload (5 ∷ 0 ∷ 2 ∷ []) (8 ∷ []) framed

abbrev relayed_packet : Bytes
relayed_packet = 0x52 ∷ 0 ∷ 1 ∷ 97 ∷ 0 ∷ 1 ∷ 98 ∷ 7 ∷ 8 ∷ []

wrapped : wrap_packet (97 ∷ []) (98 ∷ []) payload ≡ ok relayed_packet
unfolding wrap_packet validate_name
wrapped = refl

parse_packet-wrap_packet_example :
    parse_packet relayed_packet
    ≡ ok (record { src_id = 97 ∷ []; dst_id = 98 ∷ []; frame = payload })
parse_packet-wrap_packet_example =
    parse_packet-wrap_packet (97 ∷ []) (98 ∷ []) payload relayed_packet wrapped

-- one address, and a resolver that knows its text
abbrev host : UdpAddr
host = record { ip = 10 ∷ 0 ∷ 0 ∷ 1 ∷ []; port = 80; zone = [] }

abbrev host_string : UdpAddr → Bytes
host_string a = 104 ∷ []

abbrev resolve : Bytes → Option UdpAddr
resolve b = some host

abbrev envelope : Bytes
envelope = 0x52 ∷ 0 ∷ 1 ∷ 97 ∷ 0 ∷ 1 ∷ 104 ∷ 7 ∷ 8 ∷ []

enveloped : wrap_outbound host_string (97 ∷ []) (some host) payload ≡ ok envelope
unfolding wrap_outbound check_field
enveloped = refl

unwrap_outbound-wrap_outbound_example :
    unwrap_outbound resolve envelope ≡ ok (record { src_id = 97 ∷ []; dst = host; frame = payload })
unwrap_outbound-wrap_outbound_example =
    unwrap_outbound-wrap_outbound host_string resolve (97 ∷ []) host payload envelope refl
      (omega arith) enveloped

abbrev line : Bytes
line = 97 ∷ 98 ∷ 99 ∷ []

no_newline : NoNewline line
no_newline = (ground arith, (ground arith, (ground arith, tt)))

read_line_total_example : read_line 16 (97 ∷ 10 ∷ []) ≢ none
read_line_total_example = read_line_total 16 (97 ∷ 10 ∷ []) (omega arith)

read_line_line_example :
    read_line 16 (line ++ (10 ∷ 5 ∷ [])) ≡ some (line ++ (10 ∷ []), none, 5 ∷ [])
read_line_line_example = read_line_line 16 line (5 ∷ []) no_newline (omega arith) (omega arith)

read_line_tail_example :
    read_line 3 (line ++ (100 ∷ [] ++ (10 ∷ 5 ∷ []))) ≡ some (100 ∷ [] ++ (10 ∷ []), none, 5 ∷ [])
read_line_tail_example =
    read_line_tail line [] (5 ∷ []) 100 no_newline (ground arith, tt) (omega arith) (omega arith)
