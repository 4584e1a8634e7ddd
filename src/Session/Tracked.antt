-- ===== src/Session/Tracked.antt =====
-- What a client has got, as it goes on: the invariant of a session, and the client's steps.
use gio_net.Base.{
  ℕ, ◌≡◌, refl, sym, ◌∙◌, ap, true, List, [], ◌∷◌, ◌++◌, map, map-append, ok, ok_injective, arith,
  leb, length, Bool-cases, inl, inr, ◌≤◌, ◌<◌, Option, some, if◌then◌else◌,
}
use mathlib.Core.Path.{subst}
use gio_net.Buffer.{Buffer, empty, from_raw, buffer_max}
use gio_net.Buffer.Bytes.{copy_bytes_into_payload_lem}
use gio_net.Address.{NetAddress, address_equal}
use gio_net.Packet.{Packet, make_packet}
use gio_net.Packet.Codec.{packet_buffer}
use gio_net.Packet.RoundTrip.{IsPacket, read_packet-packet_buffer}
use gio_net.Message.{Message}
use gio_net.Socket.{Call, udp}
use gio_net.Connection.{Connection}
use gio_net.Client.{Client, is_connected, send, listen_round}
use gio_net.Client.Listening.{payload_of, listen_round_lem}
use gio_net.Client.Sending.{sending_round}
use gio_net.Client.Sent.{goes_through, sending_round_lem}
use gio_net.Server.{message_packet}
use gio_net.System.{Side, schedules, receives, side_schedules, In, limit}
use gio_net.System.Genuine.{MayBe, All-In}
use gio_net.Session.{Session, datagram, ready_headed}
use gio_net.Session.Rounds.{
  Traffic, Acts-Traffic, Plays-Traffic, acts, transmits_all, takes_all, with_outgoing,
  message_packet_lem,
}

-- The client as a side of two connections, which has taken these packets.
abbrev pub client_side : Client → List Buffer → List Packet → List Packet → Side
client_side c sent wire log = record {
  connection = c.connection_to_server;
  sent = sent;
  wire = wire;
  taken = log;
}

-- The delegate got the payloads of the packets that were taken.
pub record IsTracked (s : Session) : Type 0 where
  pub log : List Packet
  pub handed_over : map payload_of log ≡ s.handed
  pub traffic : Traffic s.unreliable (client_side s.client s.sent s.wire log) s.peer

pub sends-IsTracked :
    (s : Session) (msg : Message)
    → is_connected s.client ≡ true
    → (msg.reliable ≡ true → length s.sent < limit)
    → IsTracked s
    → IsTracked (record s {
      client = send msg s.client;
      sent = if msg.reliable then s.sent ++ (msg.«data» ∷ []) else s.sent;
    })
unfolding send side_schedules make_packet
sends-IsTracked s msg connected few t =
    let (reliable, payload) = message_packet_lem msg in
    let a = client_side s.client s.sent s.wire t.log in
    let act = schedules (message_packet msg) (λ h. few (sym reliable ∙ h)) in
    let after = Acts-Traffic act t.traffic in
    record {
      log = t.log;
      handed_over = t.handed_over;
      traffic = rw connected (rw (reliable, payload) at after);
    }

-- A round of the thread that sends leaves the connection with an empty queue.
sending_round-connection :
    (answer : ℕ → Option ℕ) (n : ℕ) (c d : Client) (calls : List Call)
    → c.socket.communication_protocol ≡ udp
    → c.socket.win_addr_info ≡ some n
    → sending_round answer c ≡ ok (d, calls)
    → with_outgoing c.connection_to_server [] ≡ d.connection_to_server
sending_round-connection answer n c d calls u i e =
    let round = sending_round_lem answer c n u i in
    let queue = c.connection_to_server.outgoing.ready_packets in
    elim (Bool-cases (goes_through answer 0 queue)) [
      | inl through ↦
          let (socket, made, runs, _) = rw through at round in
          ap (λ (r : Client × List Call). r.0.connection_to_server) (ok_injective (sym runs ∙ e))
      | inr stuck ↦ let failed = rw stuck at round in cc
    ]

pub transmits-IsTracked :
    (s : Session) (answer : ℕ → Option ℕ) (n : ℕ) (c : Client) (calls : List Call)
    → s.client.socket.communication_protocol ≡ udp
    → s.client.socket.win_addr_info ≡ some n
    → sending_round answer s.client ≡ ok (c, calls)
    → IsTracked s
    → IsTracked
        (record s { client = c; wire = s.wire ++ ready_headed s.client.connection_to_server })
transmits-IsTracked s answer n c calls u i e t =
    let d = s.client.connection_to_server in
    let a = client_side s.client s.sent s.wire t.log in
    let traffic =
      Plays-Traffic (transmits_all s.peer a d d.outgoing.ready_packets s.wire) t.traffic in
    let after : Connection → Side =
      λ x. record a { connection = x; wire = s.wire ++ ready_headed d } in
    record {
      log = t.log;
      handed_over = t.handed_over;
      traffic =
          subst (λ x. Traffic s.unreliable (after x) s.peer)
            (sending_round-connection answer n s.client c calls u i e) traffic;
    }

datagram-from_raw :
    (p : Packet) → length (datagram p) ≤ buffer_max → from_raw (datagram p) ≡ ok (packet_buffer p)
unfolding from_raw
datagram-from_raw p h =
    let fits : leb (length (datagram p)) buffer_max ≡ true = ground arith in
    rw (fits, copy_bytes_into_payload_lem (datagram p) empty) refl

pub listens-IsTracked :
    (s : Session) (p : Packet) (from : NetAddress) (c : Client) (payloads : List Buffer)
    (calls : List Call)
    → In p s.peer.wire
    → IsPacket p
    → length (datagram p) ≤ buffer_max
    → s.client.socket.communication_protocol ≡ udp
    → address_equal from s.client.server_address ≡ true
    → listen_round s.client (some (datagram p, from)) ≡ ok (c, payloads, calls)
    → IsTracked s
    → IsTracked (record s { client = c; handed = s.handed ++ payloads })
listens-IsTracked s p from c payloads calls there fits short u server e t =
    let a = client_side s.client s.sent s.wire t.log in
    let arrival = All-In (MayBe s.peer.sent) p s.peer.wire t.traffic.flow.inward.under_way there in
    let (d, returns, _, runs) =
      listen_round_lem s.client (datagram p) from (packet_buffer p) p empty u server
        (datagram-from_raw p short) (read_packet-packet_buffer p fits)
        t.traffic.flow.inward.tracks.valid (λ reliable. (arrival reliable).0) in
    let ready = d.incoming.ready_packets in
    let same = ok_injective (sym runs ∙ e) in
    let traffic =
      Plays-Traffic (acts (receives p d there returns) (takes_all s.peer a d ready t.log))
        t.traffic in
    let after : Connection → Side = λ x. record a { connection = x; taken = t.log ++ ready } in
    record {
      log = t.log ++ ready;
      handed_over =
          map-append payload_of t.log ready
          ∙ ap (λ xs. xs ++ map payload_of ready) t.handed_over
          ∙ ap (λ (r : Client × List Buffer × List Call). s.handed ++ r.1) same;
      traffic =
          subst (λ x. Traffic s.unreliable (after x) s.peer)
            (ap (λ (r : Client × List Buffer × List Call). r.0.connection_to_server) same) traffic;
    }
