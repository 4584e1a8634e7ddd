-- ===== src/Interleaving/Examples.antt =====
-- Two connections, a step of a thread at a time: a run, and the theorems in the states of it.
use gio_net.Base.{ℕ, ◌≤◌, ◌≡◌, refl, false, arith, [], ◌∷◌, take, inl, ◌⊎◌, bytes_of}
use gio_net.Base.Map.{contains, find, insert, erase}
use gio_net.Address.{NetAddress}
use gio_net.Packet.{Packet, is_reliable, has_flags}
use gio_net.Connection.{
  received, schedule, has_received_packet, process_acks, process_bits, packet_acked,
  reschedule_packet, enqueue_loop, enqueue_processable_packets, update_ack_id, latest_id,
  next_expected, get_index_for_next_packet, add_ack_header, ack_bits, pop_ready_outgoing_packet,
  pop_ready_incoming_packet, pop_next_ready_packet,
}
use gio_net.Connection.Samples.{data_packet}
use gio_net.System.{side_schedules, side_transmits, side_takes}
use gio_net.System.Stream.{payloads_taken, Holds}
use gio_net.Interleaving.{
  Host, Hosts, Moves, schedules, takes, pops, loads, checks, sends, locks, acks, acks_bit, notes,
  files, host_pops, host_loads, host_checks, host_sends, host_acks, host_acks_bit, note_packet,
  file_packet, left_moves, right_moves, Reach, here, next, init,
}
use gio_net.Interleaving.Stream.{interleaved_prefix, interleaved_kept}
use gio_net.Interleaving.Ending.{AtRest, Goes, GoesOn, still, steps, elsewhere, interleaved_ends}
use gio_net.Interleaving.Progress.{Finishes, interleaved_finish}

abbrev alice : NetAddress
alice = record { ip = bytes_of "10.0.0.1"; port = 4001 }

abbrev bob : NetAddress
bob = record { ip = bytes_of "10.0.0.2"; port = 4002 }

abbrev Trace : Type 0
Trace = (s : Hosts) × Reach (init alice bob) s

abbrev left : (t : Trace) {a : Host} → Moves t.0.right t.0.left a → Trace
left t m = (_, next t.1 (left_moves m))

abbrev right : (t : Trace) {a : Host} → Moves t.0.left t.0.right a → Trace
right t m = (_, next t.1 (right_moves m))

-- A message, and its packet once it is on the wire, before anything has come back.
abbrev message : ℕ → Packet
message n = record (data_packet n) { id = 0; payload = record { payload = n ∷ [] } }

abbrev posted : Packet
posted = record (message 1) { id = 1 }

run_open : ℕ → ℕ
unfolding side_schedules side_transmits side_takes received schedule has_received_packet
    process_acks process_bits packet_acked reschedule_packet enqueue_loop
    enqueue_processable_packets update_ack_id latest_id next_expected get_index_for_next_packet
    add_ack_header ack_bits pop_ready_outgoing_packet pop_ready_incoming_packet
    pop_next_ready_packet is_reliable has_flags contains find insert erase host_pops host_loads
    host_checks host_sends host_acks host_acks_bit note_packet file_packet
run_open n = n

-- The left side sends a reliable message.
left_sends : Trace
unfolding run_open
left_sends =
    let t0 : Trace = (init alice bob, here) in
    let t1 = left t0 (schedules (message 1) (λ _. omega arith)) in
    let t2 = left t1 (pops refl) in
    let t3 = left t2 (loads _ refl) in
    let t4 = left t3 (checks _ 0 refl (omega arith) refl) in
    let t5 = left t4 (checks _ 1 refl (omega arith) refl) in
    let t6 = left t5 (checks _ 2 refl (omega arith) refl) in
    let t7 = left t6 (checks _ 3 refl (omega arith) refl) in left t7 (sends _ refl)

-- The right side is about to file its packet when its other thread loads the ack id.
early_load : Trace
unfolding left_sends
early_load =
    let t1 = right left_sends (locks posted refl (inl refl)) in
    let t2 = right t1 (acks _ refl) in
    let t3 = right t2 (acks_bit _ 0 refl (omega arith)) in
    let t4 = right t3 (acks_bit _ 1 refl (omega arith)) in
    let t5 = right t4 (acks_bit _ 2 refl (omega arith)) in
    let t6 = right t5 (acks_bit _ 3 refl (omega arith)) in
    let t7 = right t6 (schedules (message 2) (λ _. omega arith)) in
    let t8 = right t7 (pops refl) in
    let t9 = right t8 (notes _ _ refl refl refl) in right t9 (loads _ refl)

-- The header names a packet that has not arrived.
early_load-missing : has_received_packet early_load.0.right.side.connection 1 ≡ false
unfolding early_load
early_load-missing = refl

-- The packet is filed, the bits are checked, the packet of the right side leaves, and its user
-- takes the message.
answered : Trace
unfolding early_load
answered =
    let t1 = right early_load (files _ _ refl refl) in
    let t2 = right t1 (checks _ 0 refl (omega arith) refl) in
    let t3 = right t2 (checks _ 1 refl (omega arith) refl) in
    let t4 = right t3 (checks _ 2 refl (omega arith) refl) in
    let t5 = right t4 (checks _ 3 refl (omega arith) refl) in
    let t6 = right t5 (sends _ refl) in right t6 (takes refl)

interleaved_prefix_example :
    (payloads_taken answered.0.right.side ≡ take 1 answered.0.left.side.sent)
    × (payloads_taken answered.0.left.side ≡ take 0 answered.0.right.side.sent)
unfolding answered
interleaved_prefix_example = interleaved_prefix answered.1

interleaved_kept_example :
    Holds early_load.0.left.side.sent early_load.0.left.side.connection.outgoing.reliable_packets 1
    ⊎ Holds early_load.0.left.side.sent early_load.0.right.side.connection.incoming.reliable_packets
        1
unfolding early_load
interleaved_kept_example = interleaved_kept early_load.1 1 (omega arith) (omega arith)

interleaved_finish_example :
    Finishes early_load.0.right early_load.0.left × Finishes early_load.0.left early_load.0.right
interleaved_finish_example = interleaved_finish early_load.1

-- The left side has popped the packet of a message.
left_popped : Trace
unfolding run_open
left_popped =
    let t0 : Trace = (init alice bob, here) in
    let t1 = left t0 (schedules (message 1) (λ _. omega arith)) in left t1 (pops refl)

-- It writes the ack id and the first bit, and the right side schedules a message in between.
left_loads : (t : Hosts) × Goes left_popped.0 t 2
unfolding left_popped
left_loads = (
  _,
  steps (elsewhere (steps still (loads _ refl) refl) (schedules (message 2) (λ _. omega arith)))
      (checks _ 0 refl (omega arith) refl) refl,
)

interleaved_ends_example :
    (2 ≤ 13) × (AtRest left_loads.0.left ⊎ GoesOn left_loads.0.right left_loads.0.left)
interleaved_ends_example = interleaved_ends left_popped.1 left_loads.1
