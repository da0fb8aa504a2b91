-- ===== src/Lib.antt =====
-- meshlink: an encrypted overlay network of peers. Agents register with a coordinator, open Noise
-- sessions with each other by hole punching or through a relay, and carry data in framed UDP
-- datagrams; a NAT simulator stands in for real boxes. This library models the parts that decide what
-- is accepted, from whom, and under which key, and proves what they promise.
--
-- Which file models which part, by the path of the code from the repository's root:
--   Record            internal/record/record.go: Frame, Parse, ReadFrame.
--   Peer.Replay       internal/peer/replay.go: the replay window, word by word. History is what it
--                     promises, Slide and Word are its bitmap, Refinement joins the two, and Gate is
--                     about sequences of arrivals.
--   Peer.Disco        internal/disco/disco.go: the roles and the timing.
--   Peer.State        internal/peer/peer.go: Peer, New, Close, SetDirectEP, sendFrame and
--                     setSessionLocked.
--   Peer.Data         peer.go: onData, encryptLocked and Send.
--   Peer.Handshake    peer.go: HandleFrame, handleFrameByPath, onHS1, onHS2, onHS3 and resendHS3.
--                     Authenticity joins every step of a peer, also those of Run, into its life.
--   Peer.Run          peer.go: the ticks of Run, with punch, switchMode, retryDirect, abandonRoaming
--                     and forceRehandshake.
--   Peer.Link         peer.go over the roles of noisework.go: two peers that meet.
--   Noisework.Cipher  the cipher states of github.com/flynn/noise, whose algorithms are a parameter.
--   Noisework.Session internal/noisework/noisework.go: Session with Send, DecryptAt and Decrypt.
--   Noisework.Handshake
--                     noisework.go: Initiator and Responder, over the handshake states of
--                     github.com/flynn/noise. Phases is about each role alone, Agreement and Ends about
--                     the two together.
--   Control           internal/control/control.go: Initiate, Accept, WriteMsg and ReadMsg.
--   Stun              internal/stun/stun.go: requests, responses and ResolvePublicAddr.
--   Tun.Router        internal/tun/router.go: parseIPv4, SetRoute, HasRoute and RoutePacket.
--   Tun.Buffer        internal/tun/fake.go: BufferDevice.
--   Agent             internal/agent/agent.go and tunbridge.go: applyPeers, attachBridge, receiveLoop,
--                     sendDatagram and SendRelay. Steps joins them with the steps of the peers, Trust
--                     and Known are about their keys, Exchange about two agents and a relay.
--   Agent.Pings       agent.go, tunbridge.go and status.go: handlePeerPayload, dispatchPing, inbound and
--                     recordRTT.
--   Relay.Packet      internal/relay/relay.go: WrapPacket and ParsePacket.
--   Relay.Budget      relay.go: take and takeGlobal.
--   Relay.Server      relay.go: handlePacket with maybeSweep and the pins.
--   Protocol          internal/protocol/protocol.go: the messages and ReadLine.
--   Coordinator       internal/coordinator/coordinator.go: handleClient, cleanupConn, broadcast and
--                     registrySnapshot on the registry and the connections.
--   Nat.Envelope      internal/nat/nat.go: the envelopes of the inside door.
--   Nat.Box           nat.go: the mappings, outboundSocket, lookupInbound and the counters.
--                     Admission is about whom it admits after any past, and Living about whom it
--                     has to admit while a mapping lives.
--   Prelude, Bits and Net hold the shared types, Go maps, bits of words and net's addresses, and Tests
--   the theorems at concrete inputs.
--
-- How the parts meet: onData gives a payload to the replay window (check, then commit once the frame
-- has authenticated) and to DecryptAt of the session; the relay forwards framed datagrams; the
-- coordinator hands out the static keys that a peer is created for. A control connection runs the
-- handshake of noisework over its bytes, and then the in-order form of a session. An agent creates and
-- drops peers as the coordinator's lists say, and hands each datagram to the peer it belongs to. In
-- Agent.Steps a tick of a peer is one step; Peer.Handshake.Authenticity takes it apart.
--
-- Conventions: numbers are native, and a word keeps its wrap-around (% 2 ^ 64). Strings and byte slices
-- are lists of their bytes. A Go map is an association list, and an iteration follows its order. Time
-- is an argument, in nanoseconds; durations that could be negative are 0. A handler that runs under a
-- lock is one function, and steps of several handlers are sequences. A panic is `none` where the code
-- can have one. Errors keep their kind and drop their text.
--
-- Bounds: rekeySendTo loops once for each epoch that is missing, and its loop is given that many
-- rounds. ReadLine is given 65,538 rounds, one more than the chunks that its limit allows; that this is
-- enough is proved. The attributes of a STUN response are given a round for each byte, and one more,
-- and a round takes four bytes at least; that is proved to be enough. Every other loop is over a list.
--
-- Parameters: the cipher algorithms and the handshake states of the Noise library
-- (Noisework.Handshake.NoiseXx), the two halves of a handshake for a peer (Peer.State.Handshakes, which
-- Peer.Link fills from noisework), how addresses are printed and resolved, hexadecimal and JSON's
-- encoding, the sinks of the router, and whether a socket takes a write.
--
-- Not modelled: goroutines, tickers, sockets, deadlines and the files of keys, which are I/O; the TUN
-- devices of the operating systems; the waits, the status and the start of internal/agent; and the
-- commands.
pub mod Prelude
pub mod Bits
pub mod Net
pub mod Noisework
pub mod Record
pub mod Stun
pub mod Nat
pub mod Protocol
pub mod Control
pub mod Coordinator
pub mod Relay
pub mod Peer
pub mod Tun
pub mod Agent
pub mod Tests
