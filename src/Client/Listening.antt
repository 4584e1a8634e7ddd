-- ===== src/Client/Listening.antt =====
-- A round of the thread that listens, on each of its branches.
use gio_net.Base.{
  ℕ, zero, suc, ◌≡◌, ◌<◌, ◌≤◌, refl, sym, true, false, arith, leb, none, some, List, [], ◌∷◌, ◌++◌,
  map, ok, append_assoc, append-nil, length,
}
use gio_net.Buffer.{Buffer, buffer_max, from_raw}
use gio_net.Address.{NetAddress, address_equal}
use gio_net.Packet.{Packet}
use gio_net.Packet.Codec.{read_packet}
use gio_net.Socket.{Call, udp, is_valid, close, free_address_info, receive_from}
use gio_net.Connection.{Connection, received, pop_ready_incoming_packet, pop_next_ready_packet}
use gio_net.Connection.Invariant.{IsValid, IsArrival}
use gio_net.Connection.Received.{received-IsValid}
use gio_net.Client.{Client, process_incoming, process_incoming_packet, listen_round, is_connected}

abbrev pub payload_of : Packet → Buffer
payload_of p = p.payload

abbrev pub queued : Connection → List Packet → Connection
queued c ps = record c { incoming = record c.incoming { ready_packets = ps } }

process_incoming-queued :
    (c : Connection) (ps : List Packet) (fuel : ℕ) (handed : List Buffer)
    → length ps < fuel
    → process_incoming fuel handed (queued c ps) ≡ ok (handed ++ map payload_of ps, queued c [])
unfolding process_incoming pop_ready_incoming_packet pop_next_ready_packet
process_incoming-queued c [] zero handed f = ground arith
process_incoming-queued c [] (suc fuel) handed f = rw (append-nil handed) refl
process_incoming-queued c (p ∷ ps) zero handed f = ground arith
process_incoming-queued c (p ∷ ps) (suc fuel) handed f =
    rw (sym (append_assoc handed (p.payload ∷ []) (map payload_of ps)))
      (process_incoming-queued c ps fuel (handed ++ (p.payload ∷ [])) (omega arith))

-- A datagram that comes from another address than the server's changes nothing and is not looked
-- at: on a socket for datagrams, with no more bytes than the receive buffer holds.
pub listen_round_other :
    (c : Client) (bytes : List ℕ) (from : NetAddress)
    → c.socket.communication_protocol ≡ udp
    → length bytes ≤ buffer_max
    → address_equal from c.server_address ≡ false
    → listen_round c (some (bytes, from)) ≡ ok (c, [], [])
unfolding listen_round receive_from from_raw
listen_round_other c bytes from u short other =
    let fits : leb (length bytes) buffer_max ≡ true = ground arith in rw (u, fits, other) refl

-- A datagram from the server's address, on a socket for datagrams, whose bytes make a buffer and
-- are those of a packet (unreliable, or with an id): the packet goes through `Received` of a
-- valid connection, which returns and stays valid, and then the payload of every packet that is
-- ready is handed over, in order and whatever the packet's type is, and the queue is empty.
-- Nothing else of the client changes.
pub listen_round_lem :
    (c : Client) (bytes : List ℕ) (from : NetAddress) (b : Buffer) (p : Packet) (rest : Buffer)
    → c.socket.communication_protocol ≡ udp
    → address_equal from c.server_address ≡ true
    → from_raw bytes ≡ ok b
    → read_packet b ≡ ok (p, rest)
    → IsValid c.connection_to_server
    → IsArrival p
    → (d : Connection) × (received c.connection_to_server p ≡ ok d)
      × IsValid d
      × (listen_round c (some (bytes, from))
          ≡ ok (
            record c { connection_to_server = queued d [] },
            map payload_of d.incoming.ready_packets,
            [],
          ))
unfolding listen_round receive_from process_incoming_packet
listen_round_lem c bytes from b p rest u server raw read valid arrival =
    let (d, returns, kept) = received-IsValid p valid arrival in
    let handed =
      process_incoming-queued d d.incoming.ready_packets (suc (length d.incoming.ready_packets)) []
        (omega arith) in
    (d, returns, kept, rw u (rw raw (rw server (rw read (rw returns (rw handed refl))))))

-- When a receive fails, on a socket for datagrams and with a server address that is not the empty
-- one, the socket is closed, but neither thread is asked to stop: the check of the sender goes
-- first, and the address it looks at is the empty one.
pub listen_round_failed :
    (c : Client)
    → c.socket.communication_protocol ≡ udp
    → address_equal (record { ip = []; port = 0 }) c.server_address ≡ false
    → (t : Client) × (calls : List Call) × (listen_round c none ≡ ok (t, [], calls))
      × (is_connected t ≡ false)
      × (t.listen_thread ≡ c.listen_thread)
      × (t.send_thread ≡ c.send_thread)
unfolding listen_round receive_from is_connected is_valid close free_address_info
listen_round_failed c u other = (
  record c { socket = (close c.socket).0 },
  (close c.socket).1 ++ [],
  rw (u, other) refl,
  refl,
  refl,
  refl,
)
