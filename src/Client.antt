-- ===== src/Client.antt =====
-- GioNet/inc/Client.h and GioNet/src/Client.cpp. The socket and the connection are the client's
-- own. The calls of the delegate are listed as the payloads it gets.
pub mod Listening
pub mod Sending
pub mod Sent
mod Examples
use gio_net.Base.{
  ℕ, zero, suc, ◌+◌, Bool, true, false, not, Option, none, some, List, [], ◌∷◌, ◌++◌, Result, ok,
  fault, endless, ◌>>=◌, if◌then◌else◌, length,
}
use gio_net.Buffer.{Buffer, empty}
use gio_net.Address.{NetAddress, address_equal}
use gio_net.Packet.{Packet, ping_type, no_flags, make_packet}
use gio_net.Packet.Codec.{read_packet, packet_buffer}
use gio_net.Message.{Message}
use gio_net.Socket.{Socket, Call, udp, open_socket, is_valid, close, send_to, receive_from}
use gio_net.Connection.{Connection, new_connection, schedule, received, pop_ready_incoming_packet}
use gio_net.Thread.{Thread, idle, running, request_stop, stop_requested}
use gio_net.Server.{message_packet}

pub record Client : Type 0 where
  pub server_address : NetAddress
  pub socket : Socket
  pub connection_to_server : Connection
  pub listen_thread : Thread
  pub send_thread : Thread

-- `Client(serverAddress)`, on the answers of getaddrinfo and socket.
unfoldable pub make_client : NetAddress → Option ℕ → Option ℕ → Client × List Call
make_client a info handle =
    let (socket, calls) = open_socket a udp info handle in
    (
      record {
        server_address = a;
        socket = socket;
        connection_to_server = new_connection a;
        listen_thread = idle;
        send_thread = idle;
      },
      calls,
    )

-- `IsConnected`
unfoldable pub is_connected : Client → Bool
is_connected c = is_valid c.socket

abbrev close_valid : Socket → Socket × List Call
close_valid s = if is_valid s then close s else (s, [])

-- `Stop`
unfoldable pub stop : Client → Client × List Call
stop c =
    let (socket, calls) = close_valid c.socket in
    (
      record c {
        socket = socket;
        listen_thread = request_stop c.listen_thread;
        send_thread = request_stop c.send_thread;
      },
      calls,
    )

-- `Start`, on the answer to the first datagram.
unfoldable pub start : Client → Option ℕ → Result (Client × List Call)
unfolding stop
start c answer =
    if is_valid c.socket
    then (send_to c.socket (packet_buffer (make_packet ping_type no_flags empty)) none answer
        >>= λ r.
            ok (record c { socket = r.1; listen_thread = running; send_thread = running }, r.2))
    else ok (stop c)

-- `Send`
unfoldable pub send : Message → Client → Client
unfolding is_connected
send msg c =
    if is_connected c
    then record c { connection_to_server = schedule c.connection_to_server (message_packet msg) }
    else c

-- `ProcessIncomingPacket` on fuel, with the payloads handed over so far.
unfoldable pub process_incoming : ℕ → List Buffer → Connection → Result (List Buffer × Connection)
process_incoming zero handed c = fault endless
process_incoming (suc fuel) handed c =
    let (popped, c1) = pop_ready_incoming_packet c in
    elim popped [
      | none ↦ ok (handed, c1)
      | some p ↦ process_incoming fuel (handed ++ (p.payload ∷ [])) c1
    ]

-- One round more than there are packets in the queue.
unfoldable pub process_incoming_packet : Client → Result (List Buffer × Client)
process_incoming_packet c = do
  (handed, d) ←
      process_incoming (suc (length c.connection_to_server.incoming.ready_packets)) []
        c.connection_to_server
  ok (handed, record c { connection_to_server = d })

-- The address that `ReceiveFrom` leaves in a variable that was made empty.
abbrev source_of : Option (Buffer × NetAddress) → NetAddress
source_of none = record { ip = []; port = 0 }
source_of (some (b, from)) = from

-- The rest of the round, when the address is the server's.
abbrev take_datagram :
    Client → Option (Buffer × NetAddress) → Result (Client × List Buffer × List Call)
take_datagram c none = let (stopped, calls) = stop c in ok (stopped, [], calls)
take_datagram c (some (b, from)) = do
  (packet, rest) ← read_packet b
  d ← received c.connection_to_server packet
  (handed, c1) ← process_incoming_packet (record c { connection_to_server = d })
  ok (c1, handed, [])

-- A round of `ListenThread`, on the answer to recvfrom: the client, the payloads handed over, and
-- the calls made.
unfoldable pub listen_round :
    Client → Option (List ℕ × NetAddress) → Result (Client × List Buffer × List Call)
unfolding stop process_incoming_packet
listen_round c answer = do
  (came, socket, made) ← receive_from c.socket answer
  (c1, handed, more) ←
      if not (address_equal (source_of came) c.server_address)
      then ok (record c { socket = socket }, [], [])
      else take_datagram (record c { socket = socket }) came
  ok (c1, handed, made ++ more)
