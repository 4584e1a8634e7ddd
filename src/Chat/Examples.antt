-- ===== src/Chat/Examples.antt =====
-- The chat: tests, and the theorems at inputs that meet their hypotheses.
use gio_net.Base.{ℕ, ◌≡◌, refl, arith, true, some, List, [], ◌∷◌, ◌++◌, ok, if◌then◌else◌, bytes_of}
use gio_net.Base.Map.{find}
use gio_net.Address.{NetAddress, address_equal, text_equal}
use gio_net.Socket.{Call, default_socket, udp, is_valid}
use gio_net.Thread.{running}
use gio_net.Connection.{new_connection, schedule}
use gio_net.Client.{is_connected}
use gio_net.Server.{get_peers, message_packet}
use gio_net.Server.Each.{member, option_map}
use gio_net.Server.Broadcast.{heard}
use gio_net.Chat.{
  ChatHost, ChatServer, ChatClient, backspace, chat_server, new_host, read_input, print_message,
  print, text_message, chat_received, client_round, client_received,
}
use gio_net.Chat.Editing.{read_input_lem}
use gio_net.Chat.Relay.{chat_line}
use gio_net.Chat.Opening.{start_client, start_client_lem, not_connected}
use gio_net.Chat.Args.{get_arg, starts_client}
use gio_net.Chat.Arguments.{last_value}

-- A backspace on nothing, "ho", a backspace, "i", and the end of the line.
abbrev keys : List ℕ
keys = backspace ∷ b'h' ∷ b'o' ∷ backspace ∷ b'i' ∷ []

read_input_lem_example :
    (h : ChatHost) × (read_input (keys ++ (b'\r' ∷ b'x' ∷ [])) (new_host (bytes_of "Gio"))
      ≡ some (bytes_of "hi", h, b'x' ∷ []))
    × (h.prompt ≡ bytes_of "hi")
    × (h.username ≡ bytes_of "Gio")
read_input_lem_example =
    read_input_lem keys b'\r' (b'x' ∷ []) (new_host (bytes_of "Gio"))
      (refl, (refl, (refl, (refl, (refl, tt))))) refl

abbrev gio_address : NetAddress
gio_address = record { ip = bytes_of "10.0.0.1"; port = 4001 }

abbrev other_address : NetAddress
other_address = record { ip = bytes_of "10.0.0.2"; port = 4002 }

abbrev server_address : NetAddress
server_address = record { ip = bytes_of "10.0.0.9"; port = 27015 }

-- A client of a user called Gio.
abbrev gio : ChatClient
gio = record {
  host = new_host (bytes_of "Gio");
  client = record {
    server_address = server_address;
    socket = record default_socket { communication_protocol = udp; win_socket = some 3 };
    connection_to_server = new_connection server_address;
    listen_thread = running;
    send_thread = running;
  };
}

-- A server with two peers.
abbrev hall : ChatServer
hall = chat_server (record {
  socket = record default_socket { communication_protocol = udp; win_socket = some 4 };
  peers = (other_address, 1) ∷ (gio_address, 0) ∷ [];
  connections = (0, new_connection gio_address) ∷ (1, new_connection other_address) ∷ [];
  next_pointer = 2;
  listen_thread = running;
  send_thread = running;
})

abbrev line : List ℕ
line = bytes_of "[Gio]: hi"

chat_line_example :
    (a1 : ChatClient) × (t : ChatServer) × (client_round (keys ++ (b'\n' ∷ [])) gio ≡ some (a1, []))
    × (a1.client ≡ record gio.client {
      connection_to_server =
          schedule gio.client.connection_to_server (message_packet (text_message line));
    })
    × (chat_received address_equal gio_address (text_message line).«data» hall ≡ ok t)
    × (t.host ≡ print_message line hall.host)
    × ((q : ℕ)
        → find q t.server.connections ≡ (
            if member q (get_peers hall.server)
            then option_map
                (heard address_equal (text_message line) (gio_address ∷ []))
                (find q hall.server.connections)
            else find q hall.server.connections))
    × ((c : ChatClient)
        → client_received (text_message line).«data» c
          ≡ ok (record c { host = print_message line c.host }))
unfolding get_peers find is_connected is_valid
chat_line_example =
    chat_line address_equal keys b'\n' [] gio gio_address hall
      (refl, (refl, (refl, (refl, (refl, tt))))) refl refl (omega arith)
      (refl, refl, (refl, refl, tt))

-- chat.exe -mode:client -verbose
abbrev argv : List (List ℕ)
argv = bytes_of "chat.exe" ∷ bytes_of "-mode:client" ∷ bytes_of "-verbose" ∷ []

-- The mode is the one that is named, and the argument without a colon has itself as its value.
two_values :
    (last_value (bytes_of "mode") argv [] ≡ bytes_of "client")
    × (last_value (bytes_of "verbose") argv [] ≡ bytes_of "-verbose")
unfolding text_equal
two_values = (refl, refl)

parsed_mode : starts_client ((bytes_of "mode", bytes_of "client") ∷ []) ≡ true
unfolding starts_client get_arg text_equal
parsed_mode = refl

-- A name is typed, and the ip of the server, and then a first line; all the calls work.
start_client_lem_example :
    (c : ChatClient) × (calls : List Call) × (start_client
        (keys ++ (b'\r' ∷ (bytes_of "10.0.0.1" ++ (b'\r' ∷ keys))))
        (some 1)
        (some 2)
        (some 13)
      ≡ some (ok (c, calls), keys))
    × (c.client.server_address ≡ record { ip = bytes_of "10.0.0.1"; port = 27015 })
    × (is_connected c.client ≡ true)
    × ((h : ChatHost) × (h.username ≡ bytes_of "hi")
        × (c.host ≡ (if is_connected c.client then h else print not_connected h)))
start_client_lem_example =
    start_client_lem keys b'\r' (bytes_of "10.0.0.1") b'\r' keys (some 1) (some 2) (some 13)
      (refl, (refl, (refl, (refl, (refl, tt))))) refl
      (refl, (refl, (refl, (refl, (refl, (refl, (refl, (refl, tt)))))))) refl
