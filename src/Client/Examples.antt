-- ===== src/Client/Examples.antt =====
-- The client: tests, and the theorems at inputs that meet their hypotheses.
use gio_net.Base.{
  ℕ, ◌≡◌, refl, false, arith, none, some, List, [], ◌∷◌, ok, fault, assertion, map, bytes_of,
}
use gio_net.Buffer.{
  empty, from_raw, write, write_buffer, to_bytes, copy_bytes_into_payload, length_i32,
}
use gio_net.Address.{NetAddress, address_equal, text_equal}
use gio_net.Packet.Codec.{packet_buffer, write_packet}
use gio_net.Packet.RoundTrip.{read_packet-packet_buffer}
use gio_net.Message.{make_message}
use gio_net.Socket.{Socket, Call, default_socket, udp, is_valid}
use gio_net.Connection.{Connection, new_connection, received}
use gio_net.Connection.Invariant.{IsValid, new_connection-IsValid}
use gio_net.Connection.Samples.{data_packet}
use gio_net.Thread.{running}
use gio_net.Client.{Client, send, listen_round, is_connected}
use gio_net.Server.Sent.{sent, flushed}
use gio_net.Client.Sending.{sending_round}
use gio_net.Client.Sent.{to_server, sending_round_lem}
use gio_net.Client.Listening.{payload_of, queued, listen_round_lem, listen_round_failed}

abbrev server : NetAddress
server = record { ip = bytes_of "10.0.0.1"; port = 26000 }

abbrev stranger : NetAddress
stranger = record { ip = bytes_of "10.0.0.9"; port = 26000 }

abbrev client : Client
client = record {
  server_address = server;
  socket = record default_socket { communication_protocol = udp; win_socket = some 3 };
  connection_to_server = new_connection server;
  listen_thread = running;
  send_thread = running;
}

-- The bytes of reliable packet 1.
abbrev wire : List ℕ
wire = 0x11 ∷ 1 ∷ 0 ∷ 0 ∷ 0 ∷ 0 ∷ 0 ∷ 0 ∷ 0 ∷ 1 ∷ 0 ∷ 0 ∷ 0 ∷ 1 ∷ []

wire-packet_buffer : packet_buffer (data_packet 1) ≡ record { payload = wire }
unfolding packet_buffer write_packet write write_buffer to_bytes copy_bytes_into_payload length_i32
wire-packet_buffer = refl

wire-from_raw : from_raw wire ≡ ok (packet_buffer (data_packet 1))
unfolding packet_buffer write_packet write write_buffer to_bytes copy_bytes_into_payload length_i32
    from_raw
wire-from_raw = refl

listen_round_lem_example :
    (d : Connection) × (received (new_connection server) (data_packet 1) ≡ ok d)
    × IsValid d
    × (listen_round client (some (wire, server))
        ≡ ok (
          record client { connection_to_server = queued d [] },
          map payload_of d.incoming.ready_packets,
          [],
        ))
unfolding address_equal text_equal
listen_round_lem_example =
    listen_round_lem client wire server (packet_buffer (data_packet 1)) (data_packet 1) empty refl
      refl wire-from_raw (read_packet-packet_buffer (data_packet 1) (omega arith))
      (new_connection-IsValid server) (λ _. omega arith)

listen_round_failed_example :
    (t : Client) × (calls : List Call) × (listen_round client none ≡ ok (t, [], calls))
    × (is_connected t ≡ false)
    × (t.listen_thread ≡ running)
    × (t.send_thread ≡ running)
unfolding address_equal
listen_round_failed_example = listen_round_failed client refl refl

-- A client that has lost its socket drops what it is asked to send.
dropped :
    send (make_message empty) (record client { socket = default_socket })
    ≡ record client { socket = default_socket }
unfolding send is_connected is_valid
dropped = refl

-- Two packets are ready, and the socket has the server's address.
abbrev busy_client : Client
busy_client = record client {
  socket = record default_socket {
    communication_protocol = udp;
    win_socket = some 3;
    win_addr_info = some 5;
  };
  connection_to_server = record (new_connection server) {
    outgoing = record {
      reliable_packets = [];
      ready_packets = data_packet 1 ∷ data_packet 2 ∷ [];
      sequence_number = 2;
    };
  };
}

-- The first call fails, so the second one does not get to be made.
sending_round_lem_example : sending_round (λ n. none) busy_client ≡ fault assertion
sending_round_lem_example = sending_round_lem (λ n. none) busy_client 5 refl refl

-- All calls work.
both_sent :
    (u : Socket) × (calls : List Call) × (sending_round (λ n. some 14) busy_client
      ≡ ok (
        record busy_client {
          socket = u;
          connection_to_server = flushed busy_client.connection_to_server;
        },
        calls,
      ))
    × (sent calls
        ≡ to_server busy_client.connection_to_server
            busy_client.connection_to_server.outgoing.ready_packets)
both_sent = sending_round_lem (λ n. some 14) busy_client 5 refl refl
