-- ===== src/Server/Examples.antt =====
-- The server: tests, and the theorems at inputs that meet their hypotheses.
use mathlib.Core.Option.{some_inj}
use gio_net.Base.{
  sym, true, false, ◌++◌, ◌⊎◌, inr, Bool-cases, some, none, length, ℕ, ◌≡◌, refl, arith, List, [],
  ◌∷◌, ok, if◌then◌else◌, inl, bytes_of,
}
use gio_net.Base.Map.{find}
use gio_net.Buffer.{empty}
use gio_net.Address.{NetAddress, address_equal, text_equal}
use gio_net.Address.Keys.{address_equal_iff}
use gio_net.Packet.{get_type}
use gio_net.Packet.Codec.{packet_buffer}
use gio_net.Packet.RoundTrip.{read_packet-packet_buffer}
use gio_net.Message.{Message, make_message}
use gio_net.Socket.{
  default_socket, udp, Call, frees, open_socket, bind, is_valid, close, free_address_info,
}
use gio_net.Connection.{Connection, new_connection}
use gio_net.Connection.Samples.{data_packet, plain_packet}
use gio_net.Thread.{idle}
use gio_net.Server.{
  Server, Event, data_received, is_running, find_peer, try_get_peer, remove_peer, peer_disconnected,
  get_peers, broadcast, handle_datagram,
}
use gio_net.Server.Life.{make_server, stop, destroy_server, listens, sends_on}
use gio_net.Server.Lifetime.{IsOver, AreReleased, Starts, server_life}
use gio_net.Server.Table.{IsTable, remove_peer_lem}
use gio_net.Server.KeyTest.{address_equal-IsKeyTest}
use gio_net.Server.Listening.{server_round, server_round_failed}
use gio_net.Server.Fit.{IsFit, made-IsFit}
use gio_net.Server.History.{Reach, here, next, datagram, broadcasts, reach-IsFit}
use gio_net.Server.Each.{member, option_map}
use gio_net.Server.Broadcast.{heard, broadcast_lem}
use gio_net.Server.Drain.{deliveries}
use gio_net.Server.Sound.{IsSound}
use gio_net.Server.Processed.{IsDrained}
use gio_net.Server.Sending.{send_round}
use gio_net.Server.Sent.{sent, datagrams, flushed, send_round_lem}
use gio_net.Server.Datagram.{Delivered, handle_datagram_lem}

abbrev alice : NetAddress
alice = record { ip = bytes_of "10.0.0.1"; port = 4001 }

abbrev bob : NetAddress
bob = record { ip = bytes_of "10.0.0.2"; port = 4002 }

abbrev new_server : Server
new_server = record {
  socket = default_socket;
  peers = [];
  connections = [];
  next_pointer = 0;
  listen_thread = idle;
  send_thread = idle;
}

-- Two packets wait for alice, one of them no data, and none for bob.
abbrev waiting_queue : Connection
waiting_queue = record (new_connection alice) {
  incoming = record {
    reliable_packets = [];
    ready_packets = data_packet 1 ∷ record plain_packet { header = 2 } ∷ [];
    sequence_number = 1;
  };
}

abbrev busy_server : Server
busy_server = record new_server {
  peers = (bob, 1) ∷ (alice, 0) ∷ [];
  connections = (0, waiting_queue) ∷ (1, new_connection bob) ∷ [];
  next_pointer = 2;
}

abbrev greeting : Message
greeting = make_message (record { payload = 72 ∷ 105 ∷ [] })

broadcast_lem_example :
    (t : Server) × (broadcast address_equal greeting (alice ∷ []) busy_server ≡ ok t)
    × ((q : ℕ)
        → find q t.connections ≡ (
            if member q (get_peers busy_server)
            then option_map
                (heard address_equal greeting (alice ∷ []))
                (find q busy_server.connections)
            else find q busy_server.connections))
    × (t.peers ≡ busy_server.peers)
    × (t.socket ≡ busy_server.socket)
    × (t.next_pointer ≡ busy_server.next_pointer)
unfolding get_peers find
broadcast_lem_example =
    broadcast_lem address_equal greeting (alice ∷ []) busy_server (refl, refl, (refl, refl, tt))

-- Only the data packet is handed over.
busy_deliveries :
    deliveries (get_peers busy_server) busy_server.connections
    ≡ data_received alice (record { payload = 1 ∷ [] }) ∷ []
unfolding get_peers find get_type
busy_deliveries = refl

new_server-IsSound : IsSound new_server
unfolding get_peers find
new_server-IsSound = record { live = tt; fresh = tt; valid = λ q c e. cc }

handle_datagram_lem_example :
    (t : Server) × (events : List Event) × (handle_datagram address_equal new_server alice
        (packet_buffer (data_packet 1))
      ≡ ok (t, events))
    × Delivered address_equal new_server alice (data_packet 1) t events
    × IsDrained t
    × IsSound t
handle_datagram_lem_example =
    handle_datagram_lem address_equal (λ a. (address_equal_iff a a).1 (refl, inl refl)) new_server
      alice (packet_buffer (data_packet 1)) (data_packet 1) empty new_server-IsSound
      (read_packet-packet_buffer (data_packet 1) (omega arith)) (λ _. omega arith)

-- Two packets wait for bob, and the socket is one for datagrams; no sending works.
abbrev sending_server : Server
sending_server = record busy_server {
  socket = record default_socket { communication_protocol = udp; win_socket = some 3 };
  connections =
      (0, new_connection alice)
      ∷ (1, record (new_connection bob) { outgoing = waiting_queue.incoming })
      ∷ [];
}

send_round_lem_example :
    (calls : List Call) × (t : Server) × (send_round (λ n. none) sending_server ≡ ok (calls, t))
    × (sent calls ≡ datagrams (get_peers sending_server) sending_server.connections)
    × ((q : ℕ)
        → find q t.connections ≡ (
            if member q (get_peers sending_server)
            then option_map flushed (find q sending_server.connections)
            else find q sending_server.connections))
    × (t.peers ≡ sending_server.peers)
    × (t.next_pointer ≡ sending_server.next_pointer)
unfolding get_peers find
send_round_lem_example =
    send_round_lem (λ n. none) sending_server (refl, refl, (refl, refl, tt)) refl

two_datagrams : length (datagrams (get_peers sending_server) sending_server.connections) ≡ 2
unfolding get_peers find
two_datagrams = refl

server_life_example :
    (s : Server) × (calls : List Call) × (make_server 27015 (some 5) (some 3) true ≡ ok (s, calls))
    × (is_running s ≡ true)
    × Starts true s
    × ((t : Server)
        → t.socket ≡ s.socket
        → IsOver (stop t).0 × AreReleased 5 3 (calls ++ destroy_server t))
server_life_example = server_life 27015 5 3 true

-- Where an address leads in a table of two.
find_two :
    (a b c : NetAddress) (p q r : ℕ)
    → find_peer address_equal c ((a, p) ∷ (b, q) ∷ []) ≡ some r
    → ((r ≡ p) × (address_equal a c ≡ true)) ⊎ ((r ≡ q) × (address_equal b c ≡ true))
unfolding find_peer
find_two a b c p q r e = elim (Bool-cases (address_equal a c)) [
  | inl h ↦ inl (sym (some_inj.0 (rw h at e)), h)
  | inr h ↦ elim (Bool-cases (address_equal b c)) [
    | inl i ↦ inr (sym (some_inj.0 (rw (h, i) at e)), i)
    | inr i ↦ absurd_some (rw (h, i) at e)
  ]
]
  where
    absurd_some : {A : Type 0} → none ≡ some r → A
    absurd_some h = cc

busy_server-IsTable : IsTable address_equal address_equal-IsKeyTest busy_server
unfolding try_get_peer find_peer find address_equal text_equal
busy_server-IsTable = record {
  distinct = (refl, (refl, tt));
  keyed = λ a p e. elim (find_two bob alice a 1 0 p e) [
    | inl (at_bob, key) ↦ (new_connection bob, rw at_bob refl, key)
    | inr (at_alice, key) ↦ (waiting_queue, rw at_alice refl, key)
  ];
  fresh = λ a p e. elim (find_two bob alice a 1 0 p e) [
    | inl (at_bob, key) ↦ omega (arith, at_bob)
    | inr (at_alice, key) ↦ omega (arith, at_alice)
  ];
}

abbrev carol : NetAddress
carol = record { ip = bytes_of "10.0.0.3"; port = 4003 }

remove_peer_lem_example :
    (t : Server) × (c : Connection) × (find 1 busy_server.connections ≡ some c)
    × (remove_peer address_equal busy_server 1 ≡ ok (t, peer_disconnected c.address ∷ []))
    × IsTable address_equal address_equal-IsKeyTest t
    × ((b : NetAddress)
        → try_get_peer address_equal t b
          ≡ (if address_equal bob b then none else try_get_peer address_equal busy_server b))
    × (t.connections ≡ busy_server.connections)
unfolding try_get_peer find_peer address_equal text_equal
remove_peer_lem_example =
    remove_peer_lem address_equal address_equal-IsKeyTest busy_server bob 1 busy_server-IsTable refl

server_round_failed_example :
    (t : Server) × (calls : List Call) × (server_round address_equal sending_server none
      ≡ ok (t, [], calls))
    × (is_running t ≡ false)
    × (listens t ≡ false)
    × (sends_on t ≡ false)
    × (get_peers t ≡ get_peers sending_server)
    × (t.connections ≡ sending_server.connections)
server_round_failed_example = server_round_failed address_equal sending_server refl

-- A server as the constructor makes it.
abbrev made_server : Server
made_server = record new_server {
  socket = record default_socket {
    address = record { ip = []; port = 27015 };
    communication_protocol = udp;
    win_socket = some 3;
  };
}

made : make_server 27015 (some 5) (some 3) true ≡ ok (made_server, frees 5 ∷ [])
unfolding make_server open_socket bind is_valid close free_address_info
made = refl

-- A datagram comes from alice, and then all peers are greeted.
greeted : (t : Server) × Reach address_equal address_equal-IsKeyTest made_server t
greeted =
    let fit =
      made-IsFit address_equal address_equal-IsKeyTest 27015 5 3 true made_server (frees 5 ∷ [])
        made in
    let read = read_packet-packet_buffer (data_packet 1) (omega arith) in
    let (t, events, e, _, _, sound) =
      handle_datagram_lem address_equal address_equal-IsKeyTest.reflexive made_server alice
        (packet_buffer (data_packet 1)) (data_packet 1) empty fit.sound read (λ _. omega arith) in
    let (u, f, _, _, _, _) = broadcast_lem address_equal greeting [] t sound.live in
    (
      u,
      next
          (next here (
            datagram alice (packet_buffer (data_packet 1)) (data_packet 1) empty read
              (λ _. omega arith) e))
          (broadcasts greeting [] f),
    )

reach-IsFit_example : IsFit address_equal address_equal-IsKeyTest greeted.0
reach-IsFit_example =
    reach-IsFit address_equal address_equal-IsKeyTest 27015 5 3 true made_server greeted.0
      (frees 5 ∷ []) made greeted.1
