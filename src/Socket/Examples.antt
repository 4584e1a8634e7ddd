-- ===== src/Socket/Examples.antt =====
-- Sockets: tests, and the theorems at inputs that meet their hypotheses.
use gio_net.Base.{
  ℕ, ◌*◌, ◌≡◌, refl, true, none, some, List, [], ◌∷◌, ◌++◌, ok, fault, null_pointer, bytes_of,
}
use gio_net.Buffer.{Buffer, from_raw}
use gio_net.Address.{NetAddress}
use gio_net.Socket.{
  Socket, Call, closes, frees, sends, tcp, udp, open_socket, destroy, move, bind, accept_connection,
  is_valid, close, free_address_info, send_to, receive_from,
}
use gio_net.Socket.Ownership.{
  Op, op_send_to, op_receive_from, op_bind, perform, live, closing, freeing, total, owned,
}
use gio_net.Socket.Lifetime.{asked, open_socket-live, move-destroy}

abbrev server_address : NetAddress
server_address = record { ip = []; port = 26000 }

abbrev peer_address : NetAddress
peer_address = record { ip = bytes_of "10.0.0.7"; port = 4000 }

abbrev greeting : Buffer
greeting = record { payload = 1 ∷ 2 ∷ 3 ∷ [] }

-- A server binds, receives a datagram and answers; the answer fails.
abbrev session : List Op
session =
    op_bind true
    ∷ op_receive_from (some (7 ∷ 8 ∷ [], peer_address))
    ∷ op_send_to greeting (some peer_address) none
    ∷ []

abbrev udp_socket : Socket
udp_socket = record {
  address = server_address;
  communication_protocol = udp;
  win_socket = some 5;
  win_addr_info = some 9;
}

session_calls :
    live udp_socket session
    ≡ ok (frees 9 ∷ sends (some peer_address) (1 ∷ 2 ∷ 3 ∷ []) ∷ closes 5 ∷ [])
unfolding live perform open_socket bind close free_address_info destroy is_valid send_to
    receive_from from_raw
session_calls = refl

-- No handle came: the address list is freed at once.
no_handle : (open_socket server_address udp (some 9) none).1 ≡ frees 9 ∷ []
unfolding open_socket close free_address_info
no_handle = refl

-- A second `Bind` reads the freed address list.
bind_twice : bind (record udp_socket { win_addr_info = none }) true ≡ fault null_pointer
unfolding bind
bind_twice = refl

-- Port 4000 is 0x0fa0; the bytes come in network order, 0xa00f on the machine, and are stored so.
accepted_port :
    accept_connection
      (record udp_socket { communication_protocol = tcp })
      (some (6, bytes_of "10.0.0.7", 0xa00f))
    ≡ ok (
        some (record {
          address = record { ip = bytes_of "10.0.0.7"; port = 0xa00f };
          communication_protocol = tcp;
          win_socket = some 6;
          win_addr_info = none;
        }))
unfolding accept_connection
accepted_port = refl

open_socket-live_example :
    (calls : List Call) × (live (open_socket server_address udp (some 9) (some 5)).0 session
      ≡ ok calls)
    × ((h : ℕ)
        → total (closing h) ((open_socket server_address udp (some 9) (some 5)).1 ++ calls)
          ≡ owned (asked (some 9) (some 5)) h)
    × ((n : ℕ)
        → total (freeing n) ((open_socket server_address udp (some 9) (some 5)).1 ++ calls)
          ≡ owned (some 9) n)
unfolding open_socket receive_from
open_socket-live_example = open_socket-live server_address udp (some 9) (some 5) session refl

move-destroy_example :
    total (closing 5) (destroy (move udp_socket).0 ++ destroy (move udp_socket).1)
    ≡ 2 * owned (some 5) 5
move-destroy_example = move-destroy udp_socket 5
