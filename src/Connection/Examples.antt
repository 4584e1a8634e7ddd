-- ===== src/Connection/Examples.antt =====
-- The theorems on the connection at inputs that meet their hypotheses.
use gio_net.Base.{
  ℕ, ◌↔◌, ◌≡◌, ◌≤◌, ◌<◌, refl, true, arith, none, List, [], ◌∷◌, ◌++◌, map, filter, length, All,
  inr, ok, fault, assertion, if◌then◌else◌,
}
use gio_net.Base.Map.{find, contains}
use gio_net.Buffer.{Buffer}
use gio_net.Packet.{Packet, is_reliable, has_flags}
use gio_net.Connection.{
  Connection, received, process_acks, add_ack_header, has_received_packet, latest_id, next_expected,
}
use gio_net.Connection.AckId.{latest_id_lem, ahead}
use gio_net.Connection.Acks.Exchange.{reports, process_acks-add_ack_header}
use gio_net.Connection.Invariant.{IsValid}
use gio_net.Connection.Received.{
  Accepted, received_reliable, received-IsValid, received_assertion_iff,
}
use gio_net.Connection.Schedule.{numbered, schedule_all, IsKept, schedule_all_lem}
use gio_net.Connection.Delivery.{Event, arrives, pops, run}
use gio_net.Connection.Delivery.Chain.{Chain, ids}
use gio_net.Connection.Delivery.Tracks.{MayArrive}
use gio_net.Connection.Delivery.Stream.{reliable_stream, fresh}
use gio_net.Connection.Delivery.Stale.{stale_packet_delivered}
use gio_net.Connection.Samples.{peer, new_one, data_packet, plain_packet}

abbrev id_payload : ℕ → Buffer
id_payload id = record { payload = id ∷ [] }

-- Out of order, with a copy, with an unreliable packet between, and packet 4 lost.
abbrev history : List Event
history =
    arrives (data_packet 3)
    ∷ arrives (data_packet 1)
    ∷ pops
    ∷ arrives plain_packet
    ∷ arrives (data_packet 1)
    ∷ arrives (data_packet 2)
    ∷ arrives (data_packet 5)
    ∷ pops
    ∷ pops
    ∷ pops
    ∷ []

-- Packet n carries the payload n.
history_may : All (MayArrive (λ (p : Packet). p.payload ≡ id_payload p.id)) history
unfolding is_reliable has_flags
history_may = (
  (λ _. (omega arith, refl)),
  (
    (λ _. (omega arith, refl)),
    (
      tt,
      (
        (λ plain. cc),
        (
          (λ _. (omega arith, refl)),
          ((λ _. (omega arith, refl)), ((λ _. (omega arith, refl)), (tt, (tt, (tt, tt))))),
        ),
      ),
    ),
  ),
)

reliable_stream_example :
    (c : Connection) × (log : List Packet) × (run (fresh peer 0) [] history ≡ ok (c, log))
    × (map (λ (p : Packet). p.id) (filter is_reliable log)
        ≡ ids 0 (length (filter is_reliable log)))
    × (map (λ (p : Packet). p.payload) (filter is_reliable log)
        ≡ map id_payload (ids 0 (length (filter is_reliable log))))
reliable_stream_example = reliable_stream id_payload peer 0 history (omega arith) history_may

-- The receiver has packets 5, 3 and 1, with packet 4 and 2 lost.
abbrev receiver : Connection
receiver = record new_one {
  incoming = record {
    reliable_packets = (5, data_packet 5) ∷ (3, data_packet 3) ∷ (1, data_packet 1) ∷ [];
    ready_packets = [];
    sequence_number = 1;
  };
  current_ack_id = 5;
}

-- The sender waits for the acks of packets 1 to 5.
abbrev sender : Connection
sender = record new_one {
  outgoing = record {
    reliable_packets =
        (1, data_packet 1)
        ∷ (2, data_packet 2)
        ∷ (3, data_packet 3)
        ∷ (4, data_packet 4)
        ∷ (5, data_packet 5)
        ∷ [];
    ready_packets = [];
    sequence_number = 5;
  };
}

receiver-IsValid : IsValid receiver
unfolding has_received_packet contains find is_reliable has_flags
receiver-IsValid = record {
  kept = tt;
  arrived = (
    (refl, (refl, omega arith)),
    ((refl, (refl, omega arith)), ((refl, (refl, omega arith)), tt)),
  );
  sending = tt;
  out_sequence = omega arith;
  in_sequence = omega arith;
  ack_in_range = omega arith;
  ack_arrived = inr refl;
}

process_acks-add_ack_header_example :
    ((id : ℕ)
      → find id
          (process_acks sender (add_ack_header receiver plain_packet)).outgoing.reliable_packets
        ≡ (if reports receiver id then none else find id sender.outgoing.reliable_packets))
    × ((process_acks sender (add_ack_header receiver plain_packet)).outgoing.ready_packets
        ≡ data_packet 4 ∷ data_packet 2 ∷ [])
unfolding has_received_packet contains find
process_acks-add_ack_header_example =
    process_acks-add_ack_header receiver sender plain_packet (omega arith)

received-IsValid_example : (d : Connection) × (received receiver (data_packet 2) ≡ ok d) × IsValid d
received-IsValid_example = received-IsValid (data_packet 2) receiver-IsValid (λ _. omega arith)

received_reliable_example :
    (d : Connection) × (received receiver (data_packet 2) ≡ ok d)
    × Accepted receiver (data_packet 2) d
unfolding is_reliable has_flags
received_reliable_example =
    received_reliable receiver (data_packet 2) receiver-IsValid refl (omega arith)

received_assertion_iff_example :
    (received receiver (data_packet 0) ≡ fault assertion)
    ↔ ((is_reliable (data_packet 0) ≡ true) × ((data_packet 0).id ≡ 0))
received_assertion_iff_example =
    received_assertion_iff (data_packet 0) receiver-IsValid (omega arith)

abbrev outbox : List Packet
outbox = data_packet 9 ∷ plain_packet ∷ data_packet 9 ∷ []

schedule_all_lem_example :
    ((schedule_all sender outbox).outgoing.ready_packets ≡ [] ++ numbered 5 outbox)
    × Chain 5
        (filter is_reliable (numbered 5 outbox))
        (schedule_all sender outbox).outgoing.sequence_number
    × (3 ≤ 65535 → All (IsKept (schedule_all sender outbox)) (numbered 5 outbox))
schedule_all_lem_example = schedule_all_lem sender outbox (omega arith)

latest_id_lem_example :
    (ahead 65535 1 < 32767 → latest_id 65535 1 ≡ 1)
    × (32768 < ahead 65535 1 → latest_id 65535 1 ≡ 65535)
    × (32767 ≤ ahead 65535 1
        → ahead 65535 1 ≤ 32768
        → (1 < 65535 → latest_id 65535 1 ≡ 1) × (65535 < 1 → latest_id 65535 1 ≡ 65535))
latest_id_lem_example = latest_id_lem 65535 1 (omega arith) (omega arith)

-- What is left of a cycle of ids: packet 65535 was the last, and the old packet 1 is still filed.
abbrev wrapped : Connection
wrapped = record new_one {
  incoming = record {
    reliable_packets = (65535, data_packet 65535) ∷ (1, data_packet 1) ∷ [];
    ready_packets = [];
    sequence_number = 65535;
  };
  current_ack_id = 65535;
}

wrapped-IsValid : IsValid wrapped
unfolding has_received_packet contains find is_reliable has_flags
wrapped-IsValid = record {
  kept = tt;
  arrived = ((refl, (refl, omega arith)), ((refl, (refl, omega arith)), tt));
  sending = tt;
  out_sequence = omega arith;
  in_sequence = omega arith;
  ack_in_range = omega arith;
  ack_arrived = inr refl;
}

stale_packet_delivered_example :
    (d : Connection) × (received wrapped (data_packet 2) ≡ ok d)
    × (d.incoming.ready_packets ≡ data_packet 1 ∷ data_packet 2 ∷ [])
    × (d.current_ack_id ≡ 2)
    × (has_received_packet d (next_expected 65535) ≡ true)
unfolding is_reliable has_flags find next_expected
stale_packet_delivered_example =
    stale_packet_delivered wrapped (data_packet 2) (data_packet 1) wrapped-IsValid (omega arith)
      refl refl refl refl
