-- ===== src/Session.antt =====
-- A client of GioNet/src/Client.cpp and the connection that its server has for it, with the
-- datagrams between them: each is the bytes of a packet, which the network may lose, repeat and
-- bring in any order. The client runs the rounds of its two threads; the other end reads and
-- writes packets around the methods of its connection.
pub mod Plain
pub mod Came
pub mod Rounds
pub mod Tracked
pub mod Stream
mod Examples
use gio_net.Base.{
  ℕ, ◌≡◌, ◌<◌, ◌≤◌, true, Bool, Option, some, List, [], ◌∷◌, ◌++◌, map, ok, if◌then◌else◌, length,
}
use gio_net.Buffer.{Buffer, buffer_max}
use gio_net.Address.{NetAddress, address_equal}
use gio_net.Packet.{Packet, is_reliable}
use gio_net.Packet.Codec.{read_packet, packet_buffer}
use gio_net.Packet.RoundTrip.{IsPacket}
use gio_net.Message.{Message}
use gio_net.Socket.{Call, udp}
use gio_net.Connection.{Connection, new_connection, received, add_ack_header}
use gio_net.Client.{Client, is_connected, send, listen_round}
use gio_net.Client.Sending.{sending_round}
use gio_net.System.{Side, new_side, side_schedules, side_transmits, side_takes, limit, remove, In}

-- The client, the payloads of the reliable messages that its user has sent and those that the
-- delegate got, both in order, its packets whose datagrams are under way, and the other end, with
-- the payloads that it has scheduled in packets that are not reliable.
pub record Session : Type 0 where
  pub client : Client
  pub sent : List Buffer
  pub handed : List Buffer
  pub wire : List Packet
  pub peer : Side
  pub unreliable : List Buffer

-- The packets of a queue as they go out.
abbrev pub headed : Connection → List Packet → List Packet
headed c ps = map (add_ack_header c) ps

abbrev pub ready_headed : Connection → List Packet
ready_headed c = headed c c.outgoing.ready_packets

-- The datagram of a packet.
abbrev pub datagram : Packet → List ℕ
datagram p = (packet_buffer p).payload

-- A step. A packet under way has fields that fit their types.
pub data Step (s : Session) : Session → Type 0 where
  client_sends :
      (msg : Message)
      → is_connected s.client ≡ true
      → (msg.reliable ≡ true → length s.sent < limit)
      → Step s (record s {
        client = send msg s.client;
        sent = if msg.reliable then s.sent ++ (msg.«data» ∷ []) else s.sent;
      })
  client_transmits :
      (answer : ℕ → Option ℕ) (a : ℕ) (c : Client) (calls : List Call)
      → s.client.socket.communication_protocol ≡ udp
      → s.client.socket.win_addr_info ≡ some a
      → sending_round answer s.client ≡ ok (c, calls)
      → Step s
          (record s { client = c; wire = s.wire ++ ready_headed s.client.connection_to_server })
  client_listens :
      (p : Packet) (from : NetAddress) (c : Client) (payloads : List Buffer) (calls : List Call)
      → In p s.peer.wire
      → IsPacket p
      → length (datagram p) ≤ buffer_max
      → s.client.socket.communication_protocol ≡ udp
      → address_equal from s.client.server_address ≡ true
      → listen_round s.client (some (datagram p, from)) ≡ ok (c, payloads, calls)
      → Step s (record s { client = c; handed = s.handed ++ payloads })
  client_loses : (n : ℕ) → Step s (record s { wire = remove n s.wire })
  peer_schedules :
      (p : Packet)
      → (is_reliable p ≡ true → length s.peer.sent < limit)
      → Step s (record s {
        peer = side_schedules p s.peer;
        unreliable = if is_reliable p then s.unreliable else s.unreliable ++ (p.payload ∷ []);
      })
  peer_transmits : Step s (record s { peer = side_transmits s.peer })
  peer_reads :
      (p q : Packet) (rest : Buffer) (d : Connection)
      → In p s.wire
      → IsPacket p
      → read_packet (packet_buffer p) ≡ ok (q, rest)
      → received s.peer.connection q ≡ ok d
      → Step s (record s { peer = record s.peer { connection = d } })
  peer_takes : Step s (record s { peer = side_takes s.peer })
  peer_loses : (n : ℕ) → Step s (record s { peer = record s.peer { wire = remove n s.peer.wire } })

pub data Reach (s : Session) : Session → Type 0 where
  here : Reach s s
  next : {t u : Session} → Reach s t → Step t u → Reach s u

-- A client that has sent nothing yet, and the connection for its address.
abbrev pub init : Client → NetAddress → Session
init c a = record {
  client = record c { connection_to_server = new_connection c.server_address };
  sent = [];
  handed = [];
  wire = [];
  peer = new_side a;
  unreliable = [];
}
