-- ===== src/Interleaving.antt =====
-- GioNet/src/Connection.cpp, as the two threads of a client or a server run it on one connection:
-- `Received` on the thread that listens and `PopReadyOutgoingPacket` on the thread that sends,
-- each cut at its locks and at its accesses to the atomic `currentAckId`, while the user
-- schedules packets and takes them. A step of one thread may come between any two of the other.
pub mod Settled
pub mod Bits
pub mod User
pub mod Sending
pub mod Acking
pub mod Noting
pub mod Filing
pub mod Stream
pub mod Runs
pub mod Hearing
pub mod Departing
pub mod Progress
pub mod Ending
mod Examples
use gio_net.Base.{
  ℕ, zero, suc, ◌+◌, ◌≡◌, ◌<◌, true, false, not, List, [], ◌∷◌, ◌++◌, Option, none, some, Result,
  ok, ◌>>◌, assert, length, ◌==◌,
}
use gio_net.Address.{NetAddress}
use gio_net.Buffer.{Buffer}
use gio_net.Packet.{Packet, is_reliable, invalid_id}
use gio_net.Connection.{
  Connection, ack_bits, ack_count, packet_acked, process_bits, update_ack_id, store_incoming,
  push_incoming, enqueue_processable_packets, pop_next_ready_packet,
}
use gio_net.Connection.Acks.{behind}
use gio_net.System.{Side, new_side, side_schedules, side_takes, limit, remove, In}

-- Where the thread that listens is. From `locked` on it holds the lock of the incoming stream.
pub data Listener : Type 0 where
  free : Listener
  -- `Received` has begun, and no ack is processed.
  locked : Packet → Listener
  -- The ack id is processed, and so many of the bits.
  acking : Packet → ℕ → Listener
  -- The current ack id is updated, and the packet is not filed.
  noted : Packet → Listener

-- Where the thread that sends is.
pub data Sender : Type 0 where
  resting : Sender
  -- A packet is popped and has no header of this side.
  popped : Packet → Sender
  -- The packet has the ack id, and so many of the bits.
  checking : Packet → ℕ → Sender

-- A side, and where its threads are.
pub record Host : Type 0 where
  pub side : Side
  pub listener : Listener
  pub sender : Sender

abbrev pub with_connection : Connection → Side → Side
with_connection c s = record s { connection = c }

-- What a pop takes, as the state of the thread.
abbrev pub sender_of : Option Packet → Sender
sender_of none = resting
sender_of (some p) = popped p

-- `PopReadyOutgoingPacket`: the pop.
unfoldable pub host_pops : Host → Host
host_pops a =
    let c = a.side.connection in
    let (packet, stream) = pop_next_ready_packet c.outgoing in
    record a {
      side = with_connection (record c { outgoing = stream }) a.side;
      sender = sender_of packet;
    }

-- `AddAckHeader`: the load of the ack id, and the bitset at its start.
unfoldable pub host_loads : Packet → Host → Host
host_loads p a = record a {
  sender = checking (record p { ack_id = a.side.connection.current_ack_id; ack_bitset = 0 }) 0;
}

-- A round of the loop of `AddAckHeader`, with its call of `HasReceivedPacket`.
unfoldable pub host_checks : Packet → ℕ → Host → Host
host_checks p i a = record a {
  sender =
      checking (record p { ack_bitset = ack_bits 1 i p.ack_id a.side.connection p.ack_bitset })
        (suc i);
}

-- The packet leaves.
unfoldable pub host_sends : Packet → Host → Host
host_sends p a = record a {
  side = record a.side { wire = a.side.wire ++ (p ∷ []) };
  sender = resting;
}

-- `ProcessAcks`: the ack id.
unfoldable pub host_acks : Packet → Host → Host
host_acks p a = record a {
  side = with_connection (packet_acked p.ack_id a.side.connection) a.side;
  listener = acking p 0;
}

-- The local `id` of `ProcessAcks` after so many rounds.
abbrev pub id_after : ℕ → ℕ → ℕ
id_after zero id = id
id_after (suc i) id = behind 1 (id_after i id)

-- A round of the loop of `ProcessAcks`, with its call of `PacketAcked` or `ReschedulePacket`.
unfoldable pub host_acks_bit : Packet → ℕ → Host → Host
host_acks_bit p i a = record a {
  side =
      with_connection (process_bits 1 i p.ack_bitset (id_after i p.ack_id) a.side.connection)
        a.side;
  listener = acking p (suc i);
}

-- `Received`, for a reliable packet: the assertion, and `UpdateAckId`.
unfoldable pub note_packet : Packet → Connection → Result Connection
note_packet p c = assert (not (p.id == invalid_id)) >> ok (update_ack_id p.id c)

-- `Received`, for a reliable packet: the rest.
unfoldable pub file_packet : Packet → Connection → Result Connection
file_packet p c = enqueue_processable_packets (store_incoming p c)

-- What one side may do while the other side is `b`. Only the thread that holds the lock of the
-- incoming stream gets past it.
pub data Moves (b a : Host) : Host → Type 0 where
  schedules :
      (p : Packet)
      → (is_reliable p ≡ true → length a.side.sent < limit)
      → Moves b a (record a { side = side_schedules p a.side })
  takes : a.listener ≡ free → Moves b a (record a { side = side_takes a.side })
  loses : (n : ℕ) → Moves b a (record a { side = record a.side { wire = remove n a.side.wire } })
  pops : a.sender ≡ resting → Moves b a (host_pops a)
  loads : (p : Packet) → a.sender ≡ popped p → Moves b a (host_loads p a)
  checks :
      (p : Packet) (i : ℕ)
      → a.sender ≡ checking p i
      → i < ack_count
      → a.listener ≡ free
      → Moves b a (host_checks p i a)
  sends : (p : Packet) → a.sender ≡ checking p ack_count → Moves b a (host_sends p a)
  locks :
      (p : Packet)
      → a.listener ≡ free
      → In p b.side.wire
      → Moves b a (record a { listener = locked p })
  acks : (p : Packet) → a.listener ≡ locked p → Moves b a (host_acks p a)
  acks_bit :
      (p : Packet) (i : ℕ)
      → a.listener ≡ acking p i
      → i < ack_count
      → Moves b a (host_acks_bit p i a)
  notes :
      (p : Packet) (d : Connection)
      → a.listener ≡ acking p ack_count
      → is_reliable p ≡ true
      → note_packet p a.side.connection ≡ ok d
      → Moves b a (record a { side = with_connection d a.side; listener = noted p })
  files :
      (p : Packet) (d : Connection)
      → a.listener ≡ noted p
      → file_packet p a.side.connection ≡ ok d
      → Moves b a (record a { side = with_connection d a.side; listener = free })
  queues :
      (p : Packet)
      → a.listener ≡ acking p ack_count
      → is_reliable p ≡ false
      → Moves b a (record a {
        side = with_connection (push_incoming p a.side.connection) a.side;
        listener = free;
      })

pub record Hosts : Type 0 where
  pub left : Host
  pub right : Host

pub data Step (s : Hosts) : Hosts → Type 0 where
  left_moves : {a : Host} → Moves s.right s.left a → Step s (record s { left = a })
  right_moves : {a : Host} → Moves s.left s.right a → Step s (record s { right = a })

pub data Reach (s : Hosts) : Hosts → Type 0 where
  here : Reach s s
  next : {t u : Hosts} → Reach s t → Step t u → Reach s u

abbrev pub new_host : NetAddress → Host
new_host peer = record { side = new_side peer; listener = free; sender = resting }

abbrev pub init : NetAddress → NetAddress → Hosts
init l r = record { left = new_host r; right = new_host l }
