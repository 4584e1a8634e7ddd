-- ===== src/System/Examples.antt =====
-- Two connections on a network: runs, and the theorems in the states that these reach.
use gio_net.Base.{
  ℕ, ◌≡◌, ◌<◌, ◌≤◌, refl, true, false, arith, [], ◌∷◌, length, take, filter, inl, inr, ok, ◌⊎◌,
  bytes_of,
}
use gio_net.Base.Map.{contains, find, insert, erase}
use gio_net.Address.{NetAddress}
use gio_net.Packet.{Packet, is_reliable, has_flags}
use gio_net.Connection.{
  Connection, received, schedule, has_received_packet, process_acks, process_bits, packet_acked,
  reschedule_packet, enqueue_loop, enqueue_processable_packets, update_ack_id, latest_id,
  next_expected, get_index_for_next_packet, add_ack_header, ack_bits, pop_ready_outgoing_packet,
  pop_ready_incoming_packet, pop_next_ready_packet,
}
use gio_net.Connection.Samples.{data_packet}
use gio_net.System.{
  System, init, limit, schedules, transmits, receives, takes, loses, side_schedules, side_transmits,
  side_takes, left_acts, right_acts, Reach, here, next, In,
}
use gio_net.System.Stream.{payloads_taken, reach_prefix, reach_kept, reach_received, Holds}
use gio_net.System.Stall.{half_limit}
use gio_net.System.Lost.{IsStalled, stalled_forever}
use gio_net.System.Recovery.{recovers}

abbrev alice : NetAddress
alice = record { ip = bytes_of "10.0.0.1"; port = 4001 }

abbrev bob : NetAddress
bob = record { ip = bytes_of "10.0.0.2"; port = 4002 }

-- A state that the two reach.
abbrev Trace : Type 0
Trace = (s : System) × Reach (init alice bob) s

-- The packet of the n-th message, as it is on the wire before anything has come back.
abbrev posted : ℕ → Packet
posted n = record (data_packet n) { payload = record { payload = n ∷ [] } }

-- The left side schedules a reliable message and sends it.
abbrev posts : (n : ℕ) (t : Trace) → length t.0.left.sent < limit → Trace
posts n t few = (
  _,
  next (next t.1 (left_acts (schedules (record (posted n) { id = 0 }) (λ _. few))))
      (left_acts transmits),
)

abbrev arrives :
    (t : Trace) (p : Packet) (d : Connection)
    → In p t.0.left.wire
    → received t.0.right.connection p ≡ ok d
    → Trace
arrives t p d there e = (_, next t.1 (right_acts (receives p d there e)))

abbrev started : Trace
started = (init alice bob, here)

run_open : ℕ → ℕ
unfolding side_schedules side_transmits side_takes received schedule has_received_packet
    process_acks process_bits packet_acked reschedule_packet enqueue_loop
    enqueue_processable_packets update_ack_id latest_id next_expected get_index_for_next_packet
    add_ack_header ack_bits pop_ready_outgoing_packet pop_ready_incoming_packet
    pop_next_ready_packet is_reliable has_flags contains find insert erase
run_open n = n

three_posted : Trace
unfolding run_open
three_posted = posts 3 (posts 2 (posts 1 started (omega arith)) (omega arith)) (omega arith)

-- The second arrives first, then the first, twice; the third is lost; the user takes both.
two_taken : Trace
unfolding three_posted
two_taken =
    let a = arrives three_posted (posted 2) _ (inr (inl refl)) refl in
    let b = arrives a (posted 1) _ (inl refl) refl in
    let c = arrives b (posted 1) _ (inl refl) refl in
    (_, next (next (next c.1 (left_acts (loses 2))) (right_acts takes)) (right_acts takes))

two_payloads :
    payloads_taken two_taken.0.right
    ≡ record { payload = 1 ∷ [] } ∷ record { payload = 2 ∷ [] } ∷ []
unfolding two_taken
two_payloads = refl

reach_prefix_example :
    (payloads_taken two_taken.0.right ≡ take 2 two_taken.0.left.sent)
    × (payloads_taken two_taken.0.left ≡ take 0 two_taken.0.right.sent)
unfolding two_taken
reach_prefix_example = reach_prefix two_taken.1

reach_kept_example :
    Holds two_taken.0.left.sent two_taken.0.left.connection.outgoing.reliable_packets 3
    ⊎ Holds two_taken.0.left.sent two_taken.0.right.connection.incoming.reliable_packets 3
unfolding two_taken
reach_kept_example = reach_kept two_taken.1 3 (omega arith) (omega arith)

reach_received_example :
    (In (posted 3) three_posted.0.left.wire
      → (d : Connection) × (received three_posted.0.right.connection (posted 3) ≡ ok d))
    × (In (posted 3) three_posted.0.right.wire
        → (d : Connection) × (received three_posted.0.left.connection (posted 3) ≡ ok d))
unfolding three_posted
reach_received_example = reach_received (posted 3) three_posted.1

-- The third arrives, and the second; the first is lost.
first_lost : Trace
unfolding three_posted
first_lost =
    let a = arrives three_posted (posted 3) _ (inr (inr (inl refl))) refl in
    let b = arrives a (posted 2) _ (inr (inl refl)) refl in (_, next b.1 (left_acts (loses 0)))

recovers_example :
    (t : System) × Reach first_lost.0 t × (has_received_packet t.right.connection 1 ≡ true)
unfolding first_lost
recovers_example = recovers 1 1 (omega arith) first_lost.1 refl refl

six_posted : Trace
unfolding three_posted
six_posted = posts 6 (posts 5 (posts 4 three_posted (omega arith)) (omega arith)) (omega arith)

-- All but the first arrive, and the first is lost.
passed_first : Trace
unfolding six_posted
passed_first =
    let a = arrives six_posted (posted 2) _ (inr (inl refl)) refl in
    let b = arrives a (posted 3) _ (inr (inr (inl refl))) refl in
    let c = arrives b (posted 4) _ (inr (inr (inr (inl refl)))) refl in
    let d = arrives c (posted 5) _ (inr (inr (inr (inr (inl refl))))) refl in
    let e = arrives d (posted 6) _ (inr (inr (inr (inr (inr (inl refl)))))) refl in
    (_, next e.1 (left_acts (loses 0)))

passed_first-IsStalled : IsStalled 1 passed_first.0
unfolding passed_first
passed_first-IsStalled = record {
  gone = record {
    scheduled = omega arith;
    queue = tt;
    under_way = (
      (λ _ e. omega (arith, e)),
      (
        (λ _ e. omega (arith, e)),
        ((λ _ e. omega (arith, e)), ((λ _ e. omega (arith, e)), ((λ _ e. omega (arith, e)), tt))),
      ),
    );
  };
  passed = record {
    missing = refl;
    behind_it = omega arith;
    passed = omega arith;
    recent = omega arith;
    headers = tt;
  };
}

passed_first-few : length passed_first.0.left.sent ≤ half_limit
unfolding passed_first
passed_first-few = omega arith

-- The user of the right side takes: there is nothing yet, and there never will be.
waited : System
waited = record passed_first.0 { right = side_takes passed_first.0.right }

stalled_forever_example :
    (has_received_packet waited.right.connection 1 ≡ false)
    × (length (filter is_reliable waited.right.taken) < 1)
unfolding waited
stalled_forever_example =
    stalled_forever 1 (omega arith) (omega arith) passed_first.1 passed_first-IsStalled
      (next here (right_acts takes)) passed_first-few
