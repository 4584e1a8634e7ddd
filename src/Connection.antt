-- ===== src/Connection.antt =====
-- GioNet/inc/Connection.h and GioNet/src/Connection.cpp: the reliability layer. Each method runs
-- under the lock of its stream, so it is one step of the model; a queue's front is its list's
-- head.
pub mod Ids
pub mod Enqueue
pub mod AckId
pub mod Acks
pub mod Invariant
pub mod Received
pub mod Delivery
pub mod Schedule
pub mod Next
pub mod Samples
mod Examples
use gio_net.Base.{
  ℕ, zero, suc, ◌+◌, ◌-◌, ◌/◌, ◌^◌, Bool, true, false, not, ◌&&◌, ◌||◌, Option, none, some, List,
  [], ◌∷◌, ◌++◌, Result, ok, fault, assertion, endless, ◌>>=◌, ◌>>◌, assert, u16, ltb, ◌==◌,
  if◌then◌else◌, bit_and, bit_or,
}
use gio_net.Base.Map.{Map, find, insert, erase, contains}
use gio_net.Address.{NetAddress}
use gio_net.Packet.{Packet, invalid_id, max_possible_id, is_reliable}

pub record PacketStream : Type 0 where
  pub reliable_packets : Map Packet
  pub ready_packets : List Packet
  pub sequence_number : ℕ

pub record Connection : Type 0 where
  pub address : NetAddress
  pub outgoing : PacketStream
  pub incoming : PacketStream
  pub current_ack_id : ℕ

abbrev pub empty_stream : PacketStream
empty_stream = record { reliable_packets = []; ready_packets = []; sequence_number = invalid_id }

-- `Connection(address)`
abbrev pub new_connection : NetAddress → Connection
new_connection a = record {
  address = a;
  outgoing = empty_stream;
  incoming = empty_stream;
  current_ack_id = invalid_id;
}

-- The rest of a pop, once the queue is known.
abbrev pub pop_from : List Packet → PacketStream → Option Packet × PacketStream
pop_from [] s = (none, s)
pop_from (p ∷ ps) s = (some p, record s { ready_packets = ps })

-- `PacketStream::PopNextReadyPacket`
unfoldable pub pop_next_ready_packet : PacketStream → Option Packet × PacketStream
pop_next_ready_packet s = pop_from s.ready_packets s

-- `++` on an IdType.
abbrev pub increment : ℕ → ℕ
increment id = u16 (id + 1)

-- `GetIndexForNextPacket`: the index, and the connection with its sequence number moved on.
unfoldable pub get_index_for_next_packet : Connection → ℕ × Connection
get_index_for_next_packet c =
    let seq = c.outgoing.sequence_number in
    let skipped = if seq == max_possible_id then increment seq else seq in
    let next = increment skipped in
    (next, record c { outgoing = record c.outgoing { sequence_number = next } })

abbrev push_outgoing : Packet → Connection → Connection
push_outgoing p c = record c {
  outgoing = record c.outgoing { ready_packets = c.outgoing.ready_packets ++ (p ∷ []) };
}

-- `outgoing.reliablePackets[index] = packet`
abbrev store_outgoing : ℕ → Packet → Connection → Connection
store_outgoing index p c = record c {
  outgoing = record c.outgoing { reliable_packets = insert index p c.outgoing.reliable_packets };
}

-- `Schedule`
unfoldable pub schedule : Connection → Packet → Connection
schedule c p =
    if is_reliable p
    then (let (index, c1) = get_index_for_next_packet c in
        let p1 = record p { id = index } in push_outgoing p1 (store_outgoing index p1 c1))
    else push_outgoing p c

-- `HasReceivedPacket`
unfoldable pub has_received_packet : Connection → ℕ → Bool
has_received_packet c id = contains id c.incoming.reliable_packets

-- sizeof(Packet::ackBitset): the number of bytes of a uint32_t.
abbrev pub ack_count : ℕ
ack_count = 4

-- The loop of `AddAckHeader` at bit `i`, with `rounds` bits left.
unfoldable pub ack_bits : ℕ → ℕ → ℕ → Connection → ℕ → ℕ
ack_bits zero i ack c bitset = bitset
ack_bits (suc rounds) i ack c bitset =
    let offset = u16 (u16 i + 1) in
    let id = u16 (ack + 65536 - offset) in
    ack_bits rounds (i + 1) ack c
      (if has_received_packet c id then bit_or bitset (2 ^ i) else bitset)

-- `AddAckHeader`
unfoldable pub add_ack_header : Connection → Packet → Packet
add_ack_header c p = record p {
  ack_id = c.current_ack_id;
  ack_bitset = ack_bits ack_count 0 c.current_ack_id c 0;
}

-- The ack header is added to a packet that was there.
abbrev with_header : Connection → Option Packet → Option Packet
with_header c none = none
with_header c (some p) = some (add_ack_header c p)

-- `PopReadyOutgoingPacket`
unfoldable pub pop_ready_outgoing_packet : Connection → Option Packet × Connection
unfolding pop_next_ready_packet
pop_ready_outgoing_packet c =
    let (popped, stream) = pop_next_ready_packet c.outgoing in
    let c1 = record c { outgoing = stream } in (with_header c1 popped, c1)

-- `PopReadyIncomingPacket`
unfoldable pub pop_ready_incoming_packet : Connection → Option Packet × Connection
unfolding pop_next_ready_packet
pop_ready_incoming_packet c =
    let (popped, stream) = pop_next_ready_packet c.incoming in
    (popped, record c { incoming = stream })

-- `SetOutgoingSequenceNumber` and `SetIncomingSequenceNumber`
unfoldable pub set_outgoing_sequence_number : ℕ → Connection → Connection
set_outgoing_sequence_number n c = record c { outgoing = record c.outgoing { sequence_number = n } }

unfoldable pub set_incoming_sequence_number : ℕ → Connection → Connection
set_incoming_sequence_number n c = record c { incoming = record c.incoming { sequence_number = n } }

-- `PacketAcked`
unfoldable pub packet_acked : ℕ → Connection → Connection
packet_acked id c = record c {
  outgoing = record c.outgoing { reliable_packets = erase id c.outgoing.reliable_packets };
}

-- A copy of the packet goes to the queue, if there is one.
abbrev push_found : Option Packet → Connection → Connection
push_found none c = c
push_found (some p) c = push_outgoing p c

-- `ReschedulePacket`
unfoldable pub reschedule_packet : ℕ → Connection → Connection
reschedule_packet id c = push_found (find id c.outgoing.reliable_packets) c

-- The loop of `ProcessAcks` at bit `i`, with `rounds` bits left; `id` is the one before `--id`.
unfoldable pub process_bits : ℕ → ℕ → ℕ → ℕ → Connection → Connection
process_bits zero i bitset id c = c
process_bits (suc rounds) i bitset id c =
    let id1 = u16 (id + 65536 - 1) in
    let is_packet_acked = not (bit_and bitset (2 ^ i) == 0) in
    process_bits rounds (i + 1) bitset id1
      (if is_packet_acked then packet_acked id1 c else reschedule_packet id1 c)

-- `ProcessAcks`
unfoldable pub process_acks : Connection → Packet → Connection
process_acks c p = process_bits ack_count 0 p.ack_bitset p.ack_id (packet_acked p.ack_id c)

-- HalfId
abbrev pub half_id : ℕ
half_id = max_possible_id / 2

-- What `UpdateAckId` stores, given the current id and the new one.
unfoldable pub latest_id : ℕ → ℕ → ℕ
latest_id current new =
    if current == invalid_id
    then new
    else let new_is_greater = not (ltb new current) in
      let distance = if new_is_greater then u16 (new - current) else u16 (current - new) in
      if (ltb distance half_id && new_is_greater) || (ltb half_id distance && not new_is_greater)
      then new
      else current

-- `UpdateAckId`
unfoldable pub update_ack_id : ℕ → Connection → Connection
update_ack_id new c = record c { current_ack_id = latest_id c.current_ack_id new }

-- `nextExpectedPacketId++`, and once more past the invalid id.
unfoldable pub next_expected : ℕ → ℕ
next_expected id = let next = increment id in if next == invalid_id then increment next else next

-- The loop of `EnqueueProcessablePackets` on fuel.
unfoldable pub enqueue_loop : ℕ → ℕ → ℕ → PacketStream → Result PacketStream
enqueue_loop zero next latest s = fault endless
enqueue_loop (suc fuel) next latest s = elim (next == latest) [
  | true ↦ ok s
  | false ↦
      let next1 = next_expected next in
      elim (find next1 s.reliable_packets) [
        | none ↦ ok s
        | some p ↦
            enqueue_loop fuel next1 latest
              (record s { sequence_number = next1; ready_packets = s.ready_packets ++ (p ∷ []) })
      ]
]

-- There are 65535 ids, so a loop that has not met its end or a gap in 65536 rounds meets none.
abbrev pub enqueue_fuel : ℕ
enqueue_fuel = 65536

-- `EnqueueProcessablePackets`
unfoldable pub enqueue_processable_packets : Connection → Result Connection
enqueue_processable_packets c = do
  stream ← enqueue_loop enqueue_fuel c.incoming.sequence_number c.current_ack_id c.incoming
  ok (record c { incoming = stream })

-- `incoming.reliablePackets[packetId] = packet`
abbrev pub store_incoming : Packet → Connection → Connection
store_incoming p c = record c {
  incoming = record c.incoming { reliable_packets = insert p.id p c.incoming.reliable_packets };
}

abbrev pub push_incoming : Packet → Connection → Connection
push_incoming p c = record c {
  incoming = record c.incoming { ready_packets = c.incoming.ready_packets ++ (p ∷ []) };
}

-- `Received`
unfoldable pub received : Connection → Packet → Result Connection
received c p =
    let c1 = process_acks c p in
    if is_reliable p
    then (assert (not (p.id == invalid_id))
        >> enqueue_processable_packets (store_incoming p (update_ack_id p.id c1)))
    else ok (push_incoming p c1)
