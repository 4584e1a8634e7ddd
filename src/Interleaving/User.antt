-- ===== src/Interleaving/User.antt =====
-- What the user and the network do, while the threads are in the middle of their calls.
use gio_net.Base.{
  ℕ, ◌≡◌, ◌<◌, refl, sym, ap, true, arith, [], ◌∷◌, append-nil, length, inl, inr, Bool-cases,
  if◌then◌else◌,
}
use mathlib.Core.Path.{subst}
use gio_net.Packet.{Packet, is_reliable}
use gio_net.Connection.{
  Connection, schedule, get_index_for_next_packet, pop_ready_incoming_packet, pop_next_ready_packet,
}
use gio_net.System.{Side, side_schedules, side_takes, limit, remove, schedules, takes, loses}
use gio_net.System.Flows.{Flows}
use gio_net.System.Sender.{Acts-sender}
use gio_net.System.Receiver.{Acts-receiver, Remembers-same, schedule-incoming}
use gio_net.System.Passed.{schedule-ack}
use gio_net.Interleaving.{Host}
use gio_net.Interleaving.Settled.{
  settled, Threads, IsSettled, Grows, Listening-Grows, Listening-same, Sending-Grows,
}

-- A side has moved, and the other has not.
pub moved :
    (a a1 b : Host)
    → IsSettled a b
    → Flows (settled a1) (settled b)
    → Flows (settled b) (settled a1)
    → Grows a.side a1.side
    → Threads a1 b
    → IsSettled a1 b
moved a a1 b i outward inward g own = record {
  outward = outward;
  inward = inward;
  own = own;
  other = record {
    listening = Listening-Grows b.listener b.side.connection g i.other.listening;
    sending = i.other.sending;
  };
}

-- Neither thread has moved.
user_moved :
    (a b : Host) (s : Side)
    → IsSettled a b
    → Flows (settled (record a { side = s })) (settled b)
    → Flows (settled b) (settled (record a { side = s }))
    → Grows a.side s
    → s.connection.incoming.reliable_packets ≡ a.side.connection.incoming.reliable_packets
    → s.connection.current_ack_id ≡ a.side.connection.current_ack_id
    → IsSettled (record a { side = s }) b
user_moved a b s i outward inward g same_map same_ack =
    moved a (record a { side = s }) b i outward inward g
      (record {
        listening =
            Listening-same a.listener b.side.sent b.side.connection a.side.connection s.connection
              same_map same_ack i.own.listening;
        sending =
            Sending-Grows a.listener a.listener a.sender a.side s g (λ id f. inl f) i.own.sending;
      })

-- An ack id that is left out of account is so before a call of the user and after.
schedules-settled :
    (p : Packet) (a : Host)
    → side_schedules p (settled a) ≡ settled (record a { side = side_schedules p a.side })
unfolding side_schedules schedule get_index_for_next_packet
schedules-settled p a = elim (Bool-cases (is_reliable p)) [
  | inl reliable ↦ rw reliable refl
  | inr plain ↦ rw plain refl
]

takes-settled :
    (a : Host) → side_takes (settled a) ≡ settled (record a { side = side_takes a.side })
unfolding side_takes pop_ready_incoming_packet pop_next_ready_packet
takes-settled a = refl

pop_incoming-same :
    (c : Connection)
    → let d = (pop_ready_incoming_packet c).1 in
      (d.incoming.reliable_packets ≡ c.incoming.reliable_packets)
      × (d.current_ack_id ≡ c.current_ack_id)
unfolding pop_ready_incoming_packet pop_next_ready_packet
pop_incoming-same c = ground arith

schedules-Grows : (p : Packet) (a : Side) → Grows a (side_schedules p a)
unfolding side_schedules
schedules-Grows p a = record {
  more = if is_reliable p then p.payload ∷ [] else [];
  sent = elim (Bool-cases (is_reliable p)) [
    | inl reliable ↦ rw reliable refl
    | inr plain ↦ rw plain (sym (append-nil a.sent))
  ];
  remembers =
      Remembers-same a.connection (schedule a.connection p)
        (ap (λ s. s.reliable_packets) (schedule-incoming a.connection p));
}

-- Nothing more is sent, and the map stays.
pub same-Grows :
    (a s : Side)
    → s.sent ≡ a.sent
    → s.connection.incoming.reliable_packets ≡ a.connection.incoming.reliable_packets
    → Grows a s
same-Grows a s same same_map = record {
  more = [];
  sent = rw same (sym (append-nil a.sent));
  remembers = Remembers-same a.connection s.connection same_map;
}

pub schedules-IsSettled :
    (a b : Host) (p : Packet)
    → IsSettled a b
    → (is_reliable p ≡ true → length a.side.sent < limit)
    → IsSettled (record a { side = side_schedules p a.side }) b
unfolding side_schedules
schedules-IsSettled a b p i few =
    let act = schedules p few in
    user_moved a b (side_schedules p a.side) i
      (subst (λ s. Flows s (settled b)) (schedules-settled p a)
        (Acts-sender act i.outward i.inward))
      (subst (Flows (settled b)) (schedules-settled p a) (Acts-receiver act i.inward))
      (schedules-Grows p a.side)
      (ap (λ s. s.reliable_packets) (schedule-incoming a.side.connection p))
      (schedule-ack a.side.connection p)

pub takes-IsSettled :
    (a b : Host) → IsSettled a b → IsSettled (record a { side = side_takes a.side }) b
unfolding side_takes
takes-IsSettled a b i =
    let same = pop_incoming-same a.side.connection in
    user_moved a b (side_takes a.side) i
      (subst (λ s. Flows s (settled b)) (takes-settled a) (Acts-sender takes i.outward i.inward))
      (subst (Flows (settled b)) (takes-settled a) (Acts-receiver takes i.inward))
      (same-Grows a.side (side_takes a.side) refl same.0) same.0 same.1

pub loses-IsSettled :
    (a b : Host) (n : ℕ)
    → IsSettled a b
    → IsSettled (record a { side = record a.side { wire = remove n a.side.wire } }) b
loses-IsSettled a b n i =
    let s : Side = record a.side { wire = remove n a.side.wire } in
    user_moved a b s i (Acts-sender (loses n) i.outward i.inward) (Acts-receiver (loses n) i.inward)
      (same-Grows a.side s refl refl) refl refl
