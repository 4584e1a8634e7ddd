-- ===== src/NetworkingWin/Examples.antt =====
-- NetworkingWin/NetworkingWin.cpp on concrete arguments and a server with one peer.
use gio_net.Base.{refl, arith, ℕ, some, List, [], ◌∷◌, bytes_of}
use gio_net.Base.Map.{find}
use gio_net.Address.{NetAddress, address_equal}
use gio_net.Connection.{new_connection}
use gio_net.Socket.{udp, default_socket}
use gio_net.Thread.{running}
use gio_net.Client.{Client}
use gio_net.Server.{Server, get_peers}
use gio_net.NetworkingWin.Choice.{Chooses, program_lem}
use gio_net.NetworkingWin.Ping.{Pings, pings_lem}

-- networking.exe -mode:client -server_ip:10.0.0.1
abbrev argv : List (List ℕ)
argv = bytes_of "networking.exe" ∷ bytes_of "-mode:client" ∷ bytes_of "-server_ip:10.0.0.1" ∷ []

program_lem_example : Chooses argv
program_lem_example = program_lem argv (omega arith, (omega arith, (omega arith, tt)))

abbrev home : NetAddress
home = record { ip = bytes_of "10.0.0.1"; port = 27015 }

abbrev guest : NetAddress
guest = record { ip = bytes_of "10.0.0.2"; port = 5000 }

abbrev client : Client
client = record {
  server_address = home;
  socket = record default_socket { communication_protocol = udp; win_socket = some 3 };
  connection_to_server = new_connection home;
  listen_thread = running;
  send_thread = running;
}

abbrev server : Server
server = record {
  socket = record default_socket { communication_protocol = udp; win_socket = some 4 };
  peers = (guest, 0) ∷ [];
  connections = (0, new_connection guest) ∷ [];
  next_pointer = 1;
  listen_thread = running;
  send_thread = running;
}

pings_lem_example : Pings address_equal client server
unfolding get_peers find
pings_lem_example = pings_lem address_equal client server (refl, refl, tt)
