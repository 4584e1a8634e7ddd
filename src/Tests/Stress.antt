-- ===== src/Tests/Stress.antt =====
-- `ack_overflow_stress` of GioNetTests/src/ReliabilityTests.cpp, on any number of rounds.
use gio_net.Base.{
  ℕ, zero, suc, ◌+◌, ◌^◌, ◌≡◌, ◌<◌, ◌≤◌, refl, sym, ◌∙◌, ap, arith, true, Result, ok, ◌>>=◌, ◌>>◌,
  append-nil, assert, ==_iff, [], ◌∷◌, ◌++◌, ◌==◌, some,
}
use mathlib.Core.Path.{subst}
use gio_net.Buffer.{empty, write, read, to_bytes}
use gio_net.Buffer.Bytes.{
  copy_bytes_into_payload_lem, length-to_bytes, from_bytes-to_bytes, read-append,
}
use gio_net.Packet.{Packet, make_packet, data_type, reliable_flag, is_reliable, has_flags}
use gio_net.Connection.{
  Connection, schedule, received, pop_ready_outgoing_packet, pop_ready_incoming_packet,
  pop_next_ready_packet, next_expected, add_ack_header, new_connection,
}
use gio_net.Connection.Ids.{next_expected-IsId}
use gio_net.Connection.Invariant.{IsValid, pop_incoming-IsValid, new_connection-IsValid}
use gio_net.Connection.Schedule.{schedule_reliable}
use gio_net.Connection.Next.{received-next}
use gio_net.Address.{NetAddress}
use gio_net.Tests.{expect}

-- The packet of round i, as the sender schedules it.
abbrev pub round_packet : ℕ → Packet
round_packet i = make_packet data_type reliable_flag (write 8 i empty)

-- The body of the loop, in round i.
unfoldable pub stress_round : ℕ → Connection → Connection → Result (Connection × Connection)
stress_round i sender receiver = do
  let (outgoing, sender1) = pop_ready_outgoing_packet (schedule sender (round_packet i))
  q ← expect outgoing
  receiver1 ← received receiver q
  let (incoming, receiver2) = pop_ready_incoming_packet receiver1
  p ← expect incoming
  assert (p.id == q.id)
  (value, _) ← read 8 p.payload
  assert (value == i)
  ok (sender1, receiver2)

-- The loop, with `rounds` left.
unfoldable pub stress : ℕ → ℕ → Connection → Connection → Result (Connection × Connection)
stress zero i sender receiver = ok (sender, receiver)
stress (suc rounds) i sender receiver = do
  (sender1, receiver1) ← stress_round i sender receiver
  stress rounds (i + 1) sender1 receiver1

-- Sender and receiver after each round: nothing waits, and both are at the same id.
pub record AreInStep (sender receiver : Connection) : Type 0 where
  pub valid : IsValid receiver
  pub all_out : sender.outgoing.ready_packets ≡ []
  pub all_in : receiver.incoming.ready_packets ≡ []
  pub in_range : sender.outgoing.sequence_number < 65536
  pub same_id : receiver.incoming.sequence_number ≡ sender.outgoing.sequence_number
  pub same_ack : receiver.current_ack_id ≡ sender.outgoing.sequence_number

read-write : (i : ℕ) → i < 2 ^ 64 → read 8 (write 8 i empty) ≡ ok (i, empty)
unfolding write
read-write i h =
    let long = length-to_bytes 8 i in
    rw
      (
        copy_bytes_into_payload_lem (to_bytes 8 i) empty,
        sym (append-nil (to_bytes 8 i)),
        read-append 8 (to_bytes 8 i) [] long (omega (arith, long)),
        from_bytes-to_bytes 8 i h,
      )
      refl

round_packet-is_reliable : (i : ℕ) → is_reliable (round_packet i) ≡ true
unfolding make_packet is_reliable has_flags
round_packet-is_reliable i = refl

-- The connection without its first ready packet.
abbrev out_sent : Connection → Connection
out_sent c = record c { outgoing = record c.outgoing { ready_packets = [] } }

abbrev in_taken : Connection → Connection
in_taken c = record c { incoming = record c.incoming { ready_packets = [] } }

pop_outgoing-one :
    (c : Connection) (p : Packet)
    → c.outgoing.ready_packets ≡ p ∷ []
    → pop_ready_outgoing_packet c ≡ (some (add_ack_header (out_sent c) p), out_sent c)
unfolding pop_ready_outgoing_packet pop_next_ready_packet
pop_outgoing-one c p e = rw e refl

pop_incoming-one :
    (c : Connection) (p : Packet)
    → c.incoming.ready_packets ≡ p ∷ []
    → pop_ready_incoming_packet c ≡ (some p, in_taken c)
unfolding pop_ready_incoming_packet pop_next_ready_packet
pop_incoming-one c p e = rw e refl

-- The packet of round i under its id, with an ack header.
abbrev on_its_way : ℕ → Connection → Packet
on_its_way i sender =
    add_ack_header (out_sent (schedule sender (round_packet i)))
      (record (round_packet i) { id = next_expected sender.outgoing.sequence_number })

on_its_way_lem :
    (i : ℕ) (sender : Connection)
    → (is_reliable (on_its_way i sender) ≡ true)
      × ((on_its_way i sender).id ≡ next_expected sender.outgoing.sequence_number)
      × ((on_its_way i sender).payload ≡ write 8 i empty)
unfolding add_ack_header is_reliable make_packet has_flags
on_its_way_lem i sender = (refl, refl, refl)

stress_round_lem :
    (i : ℕ) (sender receiver d : Connection)
    → i < 2 ^ 64
    → pop_ready_outgoing_packet (schedule sender (round_packet i))
      ≡ (some (on_its_way i sender), out_sent (schedule sender (round_packet i)))
    → received receiver (on_its_way i sender) ≡ ok d
    → d.incoming.ready_packets ≡ on_its_way i sender ∷ []
    → stress_round i sender receiver ≡ ok (out_sent (schedule sender (round_packet i)), in_taken d)
unfolding stress_round
stress_round_lem i sender receiver d h out e ready =
    rw
      (
        out,
        e,
        pop_incoming-one d (on_its_way i sender) ready,
        (==_iff (on_its_way i sender).id (on_its_way i sender).id).1 refl,
        (on_its_way_lem i sender).2,
        read-write i h,
        (==_iff i i).1 refl,
      )
      refl

-- From a sender and a receiver that are in step a round passes, and they are in step again.
stress_round-AreInStep :
    (i : ℕ) (sender receiver : Connection)
    → i < 2 ^ 64
    → AreInStep sender receiver
    → (s : Connection) × (r : Connection) × (stress_round i sender receiver ≡ ok (s, r))
      × AreInStep s r
stress_round-AreInStep i sender receiver h a =
    let from = sender.outgoing.sequence_number in
    let scheduled =
      schedule_reliable sender (round_packet i) a.in_range (round_packet-is_reliable i) in
    let q = on_its_way i sender in
    let (reliable, id, _) = on_its_way_lem i sender in
    let (d, e, v, ready, at_id, ack) =
      received-next receiver q a.valid (a.same_ack ∙ sym a.same_id) reliable
        (id ∙ sym (ap next_expected a.same_id)) in
    let one : d.incoming.ready_packets ≡ q ∷ [] = ready ∙ ap (λ xs. xs ++ (q ∷ [])) a.all_in in
    let out =
      pop_outgoing-one (schedule sender (round_packet i))
        (record (round_packet i) { id = next_expected from })
        (ap (λ c. c.outgoing.ready_packets) scheduled ∙ rw a.all_out refl) in
    let moved : (schedule sender (round_packet i)).outgoing.sequence_number ≡ next_expected from =
      ap (λ c. c.outgoing.sequence_number) scheduled in
    (
      out_sent (schedule sender (round_packet i)),
      in_taken d,
      stress_round_lem i sender receiver d h out e one,
      record {
        valid = subst IsValid (ap (λ r. r.1) (pop_incoming-one d q one)) (pop_incoming-IsValid v);
        all_out = refl;
        all_in = refl;
        in_range = rw moved (next_expected-IsId from).1;
        same_id = at_id ∙ id ∙ sym moved;
        same_ack = ack ∙ id ∙ sym moved;
      },
    )

stress-AreInStep :
    (rounds i : ℕ) (sender receiver : Connection)
    → i + rounds ≤ 2 ^ 64
    → AreInStep sender receiver
    → (s : Connection) × (r : Connection) × (stress rounds i sender receiver ≡ ok (s, r))
      × AreInStep s r
unfolding stress
stress-AreInStep zero i sender receiver h a = (sender, receiver, refl, a)
stress-AreInStep (suc rounds) i sender receiver h a =
    let (s, r, e, b) = stress_round-AreInStep i sender receiver (omega (arith, h)) a in
    let (t, u, f, c) = stress-AreInStep rounds (i + 1) s r (omega (arith, h)) b in (t, u, rw e f, c)

-- However often the ids come round: of two new connections, one sends reliable packets to the
-- other, one at a time and none lost. In each of any number of rounds below 2 ^ 64 the packet
-- arrives at once, with the id it was sent under and the number of the round in its payload.
pub stress_passes :
    (rounds : ℕ) (l r : NetAddress)
    → rounds ≤ 2 ^ 64
    → (s : Connection) × (t : Connection) × (stress rounds 0 (new_connection l) (new_connection r)
        ≡ ok (s, t))
      × AreInStep s t
stress_passes rounds l r h =
    stress-AreInStep rounds 0 (new_connection l) (new_connection r) (omega (arith, h)) (start l r)
  where
    start : (l r : NetAddress) → AreInStep (new_connection l) (new_connection r)
    start l r = record {
      valid = new_connection-IsValid r;
      all_out = refl;
      all_in = refl;
      in_range = omega arith;
      same_id = refl;
      same_ack = refl;
    }
