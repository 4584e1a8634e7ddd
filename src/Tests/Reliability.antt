-- ===== src/Tests/Reliability.antt =====
-- The other tests of GioNetTests/src/ReliabilityTests.cpp.
use gio_net.Base.{
  ℕ, zero, suc, arith, ◌-◌, ◌≡◌, refl, true, false, Bool, not, ◌||◌, ltb, ◌==◌, Option, none, some,
  List, [], ◌∷◌, length, Result, ok, fault, endless, ◌>>=◌, ◌>>◌, assert, if◌then◌else◌,
}
use gio_net.Base.Map.{find, insert, erase, contains}
use gio_net.Buffer.{empty}
use gio_net.Packet.{
  Packet, make_packet, data_type, reliable_flag, is_reliable, has_flags, invalid_id,
  max_possible_id,
}
use gio_net.Connection.{
  Connection, schedule, received, process_acks, add_ack_header, pop_ready_outgoing_packet,
  pop_ready_incoming_packet, pop_next_ready_packet, set_incoming_sequence_number,
  set_outgoing_sequence_number, get_index_for_next_packet, ack_bits, has_received_packet,
  process_bits, packet_acked, reschedule_packet, update_ack_id, latest_id, next_expected,
  enqueue_loop, enqueue_processable_packets, new_connection,
}
use gio_net.Connection.Samples.{new_one, peer}
use gio_net.Tests.{expect}
use gio_net.Tests.Stress.{stress, AreInStep, stress_passes}

-- `{Types::Data, Flags::Reliable}`
abbrev data_packet : Packet
data_packet = make_packet data_type reliable_flag empty

-- The first loop of `outgoing_sequencing`.
unfoldable schedule_times : ℕ → Connection → Connection
schedule_times zero c = c
schedule_times (suc n) c = schedule_times n (schedule c data_packet)

-- Its second loop.
unfoldable pop_ascending : ℕ → ℕ → Connection → Result (Unit {0})
pop_ascending zero previous c = ok tt
pop_ascending (suc n) previous c = do
  let (popped, c1) = pop_ready_outgoing_packet c
  packet ← expect popped
  assert (not (packet.id == invalid_id))
  assert (previous == invalid_id || ltb previous packet.id)
  pop_ascending n packet.id c1

unfoldable outgoing_sequencing : ℕ → Result (Unit {0})
outgoing_sequencing n = pop_ascending n invalid_id (schedule_times n new_one)

unfoldable outgoing_sequencing_overflow : Result (Unit {0})
outgoing_sequencing_overflow = do
  let c = schedule (set_outgoing_sequence_number max_possible_id new_one) data_packet
  packet ← expect (pop_ready_outgoing_packet c).0
  assert (not (packet.id == invalid_id))

-- `ReceivePackets` of AckBitsetTest, and the calls of `Received` in the other tests.
unfoldable receive_packets : Connection → List ℕ → Result Connection
receive_packets c [] = ok c
receive_packets c (id ∷ ids) = do
  d ← received c (record data_packet { id = id })
  receive_packets d ids

-- Packets with these ids are popped.
unfoldable pop_expected : Connection → List ℕ → Result Connection
pop_expected c [] = ok c
pop_expected c (id ∷ ids) = do
  let (popped, d) = pop_ready_incoming_packet c
  packet ← expect popped
  assert (packet.id == id)
  pop_expected d ids

unfoldable incoming_sequencing : Result (Unit {0})
incoming_sequencing = do
  c ← receive_packets new_one (3 ∷ 1 ∷ 2 ∷ [])
  _ ← pop_expected c (1 ∷ 2 ∷ 3 ∷ [])
  ok tt

abbrev is_none : {A : Type 0} → Option A → Bool
is_none none = true
is_none (some a) = false

unfoldable incoming_sequencing_multiple_copies_same_id : Result (Unit {0})
incoming_sequencing_multiple_copies_same_id = do
  c ← receive_packets new_one (1 ∷ 1 ∷ 1 ∷ [])
  d ← pop_expected c (1 ∷ [])
  assert (is_none (pop_ready_incoming_packet d).0)

unfoldable incoming_sequencing_overflow : Result (Unit {0})
incoming_sequencing_overflow = do
  c ←
      receive_packets (set_incoming_sequence_number (max_possible_id - 1) new_one)
        (max_possible_id ∷ 1 ∷ [])
  _ ← pop_expected c (max_possible_id ∷ 1 ∷ [])
  ok tt

unfoldable incoming_ack : Result (Unit {0})
incoming_ack = do
  c ← receive_packets new_one (1 ∷ [])
  assert (c.current_ack_id == 1)
  d ← receive_packets c (4 ∷ [])
  assert (d.current_ack_id == 4)
  e ← receive_packets d (2 ∷ [])
  assert (e.current_ack_id == 4)

unfoldable incoming_ack_overflow : Result (Unit {0})
incoming_ack_overflow = do
  c ← receive_packets new_one (max_possible_id ∷ [])
  assert (c.current_ack_id == max_possible_id)
  d ← receive_packets c (1 ∷ [])
  assert (d.current_ack_id == 1)

-- `Test` of AckBitsetTest, with `CreateAckHeaderAndCompare`.
unfoldable ack_bitset_test : List ℕ → ℕ → ℕ → Result (Unit {0})
ack_bitset_test ids expected_ack expected_bitset = do
  c ← receive_packets new_one ids
  let packet = add_ack_header c data_packet
  assert (packet.ack_id == expected_ack)
  assert (packet.ack_bitset == expected_bitset)

unfoldable ack_bitset : Result (Unit {0})
ack_bitset = do
  ack_bitset_test (1 ∷ 2 ∷ 3 ∷ 4 ∷ 5 ∷ []) 5 0b1111
  ack_bitset_test (1 ∷ 2 ∷ 5 ∷ []) 5 0b1100
  ack_bitset_test (max_possible_id ∷ 1 ∷ 2 ∷ []) 2 0b101
  ack_bitset_test ((max_possible_id - 1) ∷ max_possible_id ∷ 1 ∷ []) 1 0b110

abbrev member : ℕ → List ℕ → Bool
member n [] = false
member n (m ∷ ms) = m == n || member n ms

abbrev without : ℕ → List ℕ → List ℕ
without n [] = []
without n (m ∷ ms) = if m == n then ms else m ∷ without n ms

-- The first loop of `non_acked_packets_resent`.
unfoldable send_some : ℕ → List ℕ → Connection → Connection → Result (Connection × Connection)
send_some zero missing sender receiver = ok (sender, receiver)
send_some (suc n) missing sender receiver = do
  let (popped, sender1) = pop_ready_outgoing_packet (schedule sender data_packet)
  packet ← expect popped
  receiver1 ← if member packet.id missing then ok receiver else received receiver packet
  send_some n missing sender1 receiver1

-- Its second loop, on fuel: the ids that are still missing.
unfoldable drain : ℕ → List ℕ → Connection → Result (List ℕ)
drain zero missing c = fault endless
drain (suc fuel) missing c =
    let (popped, d) = pop_ready_outgoing_packet c in
    elim popped [ none ↦ ok missing | some p ↦ drain fuel (without p.id missing) d ]

unfoldable non_acked_packets_resent : Result (Unit {0})
non_acked_packets_resent = do
  (sender, receiver) ← send_some 5 (2 ∷ 4 ∷ []) new_one new_one
  packet_with_acks ← expect (pop_ready_outgoing_packet (schedule receiver data_packet)).0
  sender1 ← received sender packet_with_acks
  missing ← drain (suc (length sender1.outgoing.ready_packets)) (2 ∷ 4 ∷ []) sender1
  assert (length missing == 0)

-- All that a test calls.
program : ℕ → ℕ
unfolding find insert erase contains make_packet is_reliable has_flags schedule received
    process_acks add_ack_header pop_ready_outgoing_packet pop_ready_incoming_packet
    pop_next_ready_packet set_incoming_sequence_number set_outgoing_sequence_number
    get_index_for_next_packet ack_bits has_received_packet process_bits packet_acked
    reschedule_packet update_ack_id latest_id next_expected enqueue_loop enqueue_processable_packets
    schedule_times pop_ascending receive_packets pop_expected ack_bitset_test send_some drain
program n = n

outgoing_sequencing_passes : outgoing_sequencing 10 ≡ ok tt
unfolding outgoing_sequencing program
outgoing_sequencing_passes = refl

outgoing_sequencing_overflow_passes : outgoing_sequencing_overflow ≡ ok tt
unfolding outgoing_sequencing_overflow program
outgoing_sequencing_overflow_passes = refl

incoming_passes :
    (incoming_sequencing ≡ ok tt)
    × (incoming_sequencing_multiple_copies_same_id ≡ ok tt)
    × (incoming_sequencing_overflow ≡ ok tt)
    × (incoming_ack ≡ ok tt)
    × (incoming_ack_overflow ≡ ok tt)
unfolding incoming_sequencing incoming_sequencing_multiple_copies_same_id
    incoming_sequencing_overflow incoming_ack incoming_ack_overflow program
incoming_passes = (refl, refl, refl, refl, refl)

ack_bitset_passes : ack_bitset ≡ ok tt
unfolding ack_bitset program
ack_bitset_passes = refl

non_acked_packets_resent_passes : non_acked_packets_resent ≡ ok tt
unfolding non_acked_packets_resent program
non_acked_packets_resent_passes = refl

-- The rounds of `ack_overflow_stress`: one more than the greatest id.
stress_passes_example :
    (s : Connection) × (t : Connection) × (stress 65536 0
        (new_connection peer)
        (new_connection peer)
      ≡ ok (s, t))
    × AreInStep s t
stress_passes_example = stress_passes 65536 peer peer (omega arith)
