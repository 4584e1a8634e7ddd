-- ===== src/Server.antt =====
-- GioNet/inc/Server.h and GioNet/src/Server.cpp. Connections are shared: they live in a store by
-- pointer, the table of peers maps an address to a pointer, in the order in which it is walked,
-- and who holds a pointer may use it. The delegates are user code: their calls are listed as
-- events, whether they are bound or not, since one that is not bound does what an empty one does.
pub mod Life
pub mod Lifetime
pub mod Table
pub mod KeyTest
pub mod Keeps
pub mod Each
pub mod Drain
pub mod Broadcast
pub mod Sound
pub mod Processed
pub mod Datagram
pub mod Listening
pub mod Sending
pub mod Sent
pub mod Fit
pub mod History
mod Examples
use gio_net.Base.{
  ℕ, zero, suc, ◌+◌, Bool, true, false, ◌||◌, Option, none, some, List, [], ◌∷◌, ◌++◌, map, Result,
  ok, fault, endless, null_pointer, ◌>>=◌, ◌>>◌, assert, if◌then◌else◌, length, ◌==◌,
}
use gio_net.Base.Map.{Map, find, insert}
use gio_net.Buffer.{Buffer}
use gio_net.Address.{NetAddress}
use gio_net.Packet.{
  Packet, Types, Flags, data_type, reliable_flag, no_flags, type_bits, make_packet, get_type,
}
use gio_net.Packet.Codec.{read_packet}
use gio_net.Message.{Message}
use gio_net.Socket.{Socket, Call, is_valid, close, bind, udp}
use gio_net.Thread.{Thread}
use gio_net.Connection.{Connection, new_connection, schedule, received, pop_ready_incoming_packet}

pub data Event : Type 0 where
  peer_connected : NetAddress → Event
  peer_disconnected : NetAddress → Event
  data_received : NetAddress → Buffer → Event

pub record Server : Type 0 where
  pub socket : Socket
  pub peers : List (NetAddress × ℕ)
  pub connections : Map Connection
  pub next_pointer : ℕ
  pub listen_thread : Thread
  pub send_thread : Thread

-- The object that a pointer leads to.
abbrev pub object : Option Connection → Result Connection
object none = fault null_pointer
object (some c) = ok c

-- `for (auto peer : peers) body`: the body may change the peer's connection and a state of the
-- loop.
unfoldable pub each {ℓ} :
    {S : Type ℓ}
    → (S → Connection → Result (S × Connection))
    → List ℕ
    → S
    → Map Connection
    → Result (S × Map Connection)
each body [] s h = ok (s, h)
each body (p ∷ ps) s h = do
  c ← object (find p h)
  (s1, c1) ← body s c
  each body ps s1 (insert p c1 h)

abbrev pub pointer_of : NetAddress × ℕ → ℕ
pointer_of e = e.1

-- `GetPeers`
unfoldable pub get_peers : Server → List ℕ
get_peers s = map pointer_of s.peers

-- `GetConnectedPeerCout`
unfoldable pub get_connected_peer_count : Server → ℕ
get_connected_peer_count s = length s.peers

-- `IsRunning`
unfoldable pub is_running : Server → Bool
is_running s = is_valid s.socket

abbrev flags_of : Bool → Flags
flags_of true = reliable_flag
flags_of false = no_flags

-- The packet that `Send` makes of a message.
abbrev pub message_packet : Message → Packet
message_packet msg = make_packet data_type (flags_of msg.reliable) msg.«data»

-- `Send`, to the connection that `peer` points to.
unfoldable pub send : Message → ℕ → Server → Result Server
send msg peer s = do
  c ← object (find peer s.connections)
  ok (record s { connections = insert peer (schedule c (message_packet msg)) s.connections })

abbrev data_events : Connection → Packet → List Event
data_events c p =
    if get_type p == type_bits data_type then data_received c.address p.payload ∷ [] else []

-- The inner loop of `ProcessReceivedPackets` on fuel; the events are in the order of the calls.
unfoldable pub process_peer : ℕ → List Event → Connection → Result (List Event × Connection)
process_peer zero events c = fault endless
process_peer (suc fuel) events c =
    let (popped, c1) = pop_ready_incoming_packet c in
    elim popped [
      | none ↦ ok (events, c1)
      | some p ↦ process_peer fuel (events ++ data_events c1 p) c1
    ]

-- One round more than there are packets in the queue.
abbrev pub queue_fuel : Connection → ℕ
queue_fuel c = suc (length c.incoming.ready_packets)

abbrev pub process_body : List Event → Connection → Result (List Event × Connection)
process_body events c = process_peer (queue_fuel c) events c

-- `ProcessReceivedPackets`
unfoldable pub process_received_packets : Server → Result (List Event × Server)
process_received_packets s = do
  (events, h) ← each process_body (get_peers s) [] s.connections
  ok (events, record s { connections = h })

-- Whether the hash tables of the library take two addresses for one key: for the peers and for
-- the exceptions of a broadcast.
module _ (same_key : NetAddress → NetAddress → Bool) where
  unfoldable pub find_peer : NetAddress → List (NetAddress × ℕ) → Option ℕ
  find_peer a [] = none
  find_peer a ((key, p) ∷ rest) = if same_key key a then some p else find_peer a rest

  -- `TryGetPeer`
  unfoldable pub try_get_peer : Server → NetAddress → Option ℕ
  try_get_peer s a = find_peer a s.peers

  abbrev found : Option ℕ → Bool
  found none = false
  found (some p) = true

  -- `HasPeer`
  unfoldable pub has_peer : Server → NetAddress → Bool
  has_peer s a = found (find_peer a s.peers)

  unfoldable pub set_contains : List NetAddress → NetAddress → Bool
  set_contains [] a = false
  set_contains (key ∷ keys) a = same_key key a || set_contains keys a

  abbrev pub broadcast_body :
      Message → List NetAddress → Unit {0} → Connection → Result (Unit {0} × Connection)
  broadcast_body msg except u c =
      if set_contains except c.address then ok (u, c) else ok (u, schedule c (message_packet msg))

  -- `Broadcast`
  unfoldable pub broadcast : Message → List NetAddress → Server → Result Server
  broadcast msg except s = do
    (u, h) ← each (broadcast_body msg except) (get_peers s) tt s.connections
    ok (record s { connections = h })

  -- `AddPeer`. A new entry stands first in the walk of the table here; the source leaves the
  -- order open.
  unfoldable pub add_peer : Server → NetAddress → Option ℕ × Server × List Event
  add_peer s a = if has_peer s a then (none, s, []) else (
    some s.next_pointer,
    record s {
      peers = (a, s.next_pointer) ∷ s.peers;
      connections = insert s.next_pointer (new_connection a) s.connections;
      next_pointer = s.next_pointer + 1;
    },
    peer_connected a ∷ [],
  )

  abbrev erase_key : NetAddress → List (NetAddress × ℕ) → List (NetAddress × ℕ)
  erase_key a [] = []
  erase_key a ((key, p) ∷ rest) = if same_key key a then rest else (key, p) ∷ erase_key a rest

  -- `RemovePeer`
  unfoldable pub remove_peer : Server → ℕ → Result (Server × List Event)
  remove_peer s peer = do
    c ← object (find peer s.connections)
    ok (
        if has_peer s c.address
        then (record s { peers = erase_key c.address s.peers }, peer_disconnected c.address ∷ [])
        else (s, []))

  -- The peer that a datagram comes from, added when it is new.
  abbrev peer_for : Server → NetAddress → Option ℕ → Option ℕ × Server × List Event
  peer_for s a none = add_peer s a
  peer_for s a (some p) = (some p, s, [])

  -- The rest of the round, once the peer is known.
  abbrev take_datagram : Buffer → Server → Option ℕ → Result (Server × List Event)
  take_datagram b s none = ok (s, [])
  take_datagram b s (some peer) = do
    (packet, rest) ← read_packet b
    c ← object (find peer s.connections)
    c1 ← received c packet
    (events, s1) ←
        process_received_packets (record s { connections = insert peer c1 s.connections })
    ok (s1, events)

  -- The body of the loop of `ListenThread`, when a datagram came in.
  unfoldable pub handle_datagram : Server → NetAddress → Buffer → Result (Server × List Event)
  handle_datagram s source b =
      let (peer, s1, made) = peer_for s source (try_get_peer s source) in
      take_datagram b s1 peer >>= λ r. ok (r.0, made ++ r.1)
