-- ===== src/Connection/Invariant.antt =====
-- What holds of every connection: ids in range, and packets filed under their own ids.
use gio_net.Base.{
  ℕ, zero, suc, ◌+◌, ◌≡◌, ◌<◌, refl, true, arith, some, [], ◌∷◌, ◌==◌, ◌⊎◌, inl, inr, Option-cases,
  All, All-append, Bool-cases,
}
use gio_net.Base.Map.{Map, find, insert, erase}
use gio_net.Address.{NetAddress}
use gio_net.Packet.{Packet, is_reliable}
use gio_net.Connection.{
  Connection, new_connection, schedule, process_acks, process_bits, packet_acked, reschedule_packet,
  next_expected, pop_ready_outgoing_packet, pop_ready_incoming_packet, pop_next_ready_packet,
  has_received_packet,
}
use gio_net.Connection.Ids.{IsId, get_index_lem, next_expected-IsId}
use gio_net.Connection.Acks.{behind, test_bit}
use gio_net.Connection.Acks.Process.{SameButWaiting, packet_acked_frame, process_bits_frame}

-- A reliable packet that bears an id.
abbrev pub IsSequenced : Packet → Type 0
IsSequenced p = (is_reliable p ≡ true) × IsId p.id

-- An entry of a map of reliable packets: the packet is filed under its id.
abbrev pub IsFiled : ℕ × Packet → Type 0
IsFiled e = (e.1.id ≡ e.0) × IsSequenced e.1

-- A packet that `Received` accepts: if it is reliable, it bears an id.
abbrev pub IsArrival : Packet → Type 0
IsArrival p = is_reliable p ≡ true → IsId p.id

pub record IsValid (c : Connection) : Type 0 where
  pub kept : All IsFiled c.outgoing.reliable_packets
  pub arrived : All IsFiled c.incoming.reliable_packets
  pub sending : All IsArrival c.outgoing.ready_packets
  pub out_sequence : c.outgoing.sequence_number < 65536
  pub in_sequence : c.incoming.sequence_number < 65536
  pub ack_in_range : c.current_ack_id < 65536
  pub ack_arrived : (c.current_ack_id ≡ 0) ⊎ (has_received_packet c c.current_ack_id ≡ true)

pub find-IsFiled :
    (m : Map Packet) (k : ℕ) (p : Packet)
    → All IsFiled m
    → find k m ≡ some p
    → (p.id ≡ k) × IsSequenced p
unfolding find
find-IsFiled [] k p a h = cc
find-IsFiled ((j, q) ∷ m) k p a h = elim (Bool-cases (j == k)) [
  | inl here ↦ ground arith
  | inr there ↦ find-IsFiled m k p a.1 (ground arith)
]

pub insert-IsFiled :
    (k : ℕ) (p : Packet) (m : Map Packet)
    → IsFiled (k, p)
    → All IsFiled m
    → All IsFiled (insert k p m)
unfolding insert
insert-IsFiled k p [] f a = (f, tt)
insert-IsFiled k p ((j, q) ∷ m) f a = elim (Bool-cases (j == k)) [
  | inl here ↦ rw here (f, a.1)
  | inr there ↦ rw there (a.0, insert-IsFiled k p m f a.1)
]

erase-IsFiled : (k : ℕ) (m : Map Packet) → All IsFiled m → All IsFiled (erase k m)
unfolding erase
erase-IsFiled k [] a = tt
erase-IsFiled k ((j, q) ∷ m) a = elim (Bool-cases (j == k)) [
  | inl here ↦ rw here (erase-IsFiled k m a.1)
  | inr there ↦ rw there (a.0, erase-IsFiled k m a.1)
]

-- A new connection is valid.
pub new_connection-IsValid : (a : NetAddress) → IsValid (new_connection a)
new_connection-IsValid a = record {
  kept = tt;
  arrived = tt;
  sending = tt;
  out_sequence = omega arith;
  in_sequence = omega arith;
  ack_in_range = omega arith;
  ack_arrived = inl refl;
}

-- The two parts of the outgoing stream that acks touch.
record Sending (c : Connection) : Type 0 where
  kept : All IsFiled c.outgoing.reliable_packets
  sending : All IsArrival c.outgoing.ready_packets

reschedule-Sending : (id : ℕ) (c : Connection) → Sending c → Sending (reschedule_packet id c)
unfolding reschedule_packet
reschedule-Sending id c s = elim (Option-cases (find id c.outgoing.reliable_packets)) [
  | inl absent ↦ rw absent s
  | inr (p, found) ↦
      let filed = find-IsFiled c.outgoing.reliable_packets id p s.kept found in
      rw found (record {
        kept = s.kept;
        sending =
            All-append IsArrival c.outgoing.ready_packets (p ∷ []) s.sending ((λ _. filed.1.1), tt);
      })
]

acked-Sending : (id : ℕ) (c : Connection) → Sending c → Sending (packet_acked id c)
unfolding packet_acked
acked-Sending id c s = record {
  kept = erase-IsFiled id c.outgoing.reliable_packets s.kept;
  sending = s.sending;
}

process_bits-Sending :
    (rounds i bitset from : ℕ) (c : Connection)
    → Sending c
    → Sending (process_bits rounds i bitset from c)
unfolding process_bits
process_bits-Sending zero i bitset from c s = s
process_bits-Sending (suc rounds) i bitset from c s = elim (Bool-cases (test_bit i bitset)) [
  | inl on ↦ rw on (
      process_bits-Sending rounds (i + 1) bitset (behind 1 from) _
        (acked-Sending (behind 1 from) c s))
  | inr off ↦ rw off (
      process_bits-Sending rounds (i + 1) bitset (behind 1 from) _
        (reschedule-Sending (behind 1 from) c s))
]

-- Only the two parts count, where the rest stays as it is.
Sending-IsValid : {c d : Connection} → SameButWaiting c d → Sending d → IsValid c → IsValid d
unfolding has_received_packet
Sending-IsValid f s v = record {
  kept = s.kept;
  arrived = rw f.same_incoming v.arrived;
  sending = s.sending;
  out_sequence = rw f.same_sequence v.out_sequence;
  in_sequence = rw f.same_incoming v.in_sequence;
  ack_in_range = rw f.same_ack_id v.ack_in_range;
  ack_arrived = rw (f.same_ack_id, f.same_incoming) v.ack_arrived;
}

-- Acks keep a connection valid, each by itself and all together.
pub packet_acked-IsValid : {c : Connection} (id : ℕ) → IsValid c → IsValid (packet_acked id c)
packet_acked-IsValid {c} id v =
    Sending-IsValid (packet_acked_frame id c)
      (acked-Sending id c (record { kept = v.kept; sending = v.sending })) v

pub process_bits-IsValid :
    {c : Connection} (rounds i bitset from : ℕ)
    → IsValid c
    → IsValid (process_bits rounds i bitset from c)
process_bits-IsValid {c} rounds i bitset from v =
    Sending-IsValid (process_bits_frame rounds i bitset from c)
      (process_bits-Sending rounds i bitset from c (record { kept = v.kept; sending = v.sending }))
      v

pub process_acks-IsValid : {c : Connection} (p : Packet) → IsValid c → IsValid (process_acks c p)
unfolding process_acks
process_acks-IsValid p v =
    process_bits-IsValid 4 0 p.ack_bitset p.ack_id (packet_acked-IsValid p.ack_id v)

-- A packet that gets an id is sequenced, and one that gets none is unreliable.
schedule_reliable-IsValid :
    {c : Connection} (p : Packet) → IsValid c → is_reliable p ≡ true → IsValid (schedule c p)
unfolding schedule is_reliable has_received_packet
schedule_reliable-IsValid {c} p v r =
    let next = next_expected c.outgoing.sequence_number in
    let id = next_expected-IsId c.outgoing.sequence_number in
    rw (r, get_index_lem c v.out_sequence)
      (record {
        kept =
            insert-IsFiled next (record p { id = next }) c.outgoing.reliable_packets (refl, (r, id))
              v.kept;
        arrived = v.arrived;
        sending =
            All-append IsArrival c.outgoing.ready_packets (record p { id = next } ∷ []) v.sending
              ((λ _. id), tt);
        out_sequence = id.1;
        in_sequence = v.in_sequence;
        ack_in_range = v.ack_in_range;
        ack_arrived = v.ack_arrived;
      })

-- Scheduling keeps a connection valid, whatever id the packet comes with.
pub schedule-IsValid : {c : Connection} (p : Packet) → IsValid c → IsValid (schedule c p)
unfolding schedule has_received_packet
schedule-IsValid {c} p v = elim (Bool-cases (is_reliable p)) [
  | inl reliable ↦ schedule_reliable-IsValid p v reliable
  | inr plain ↦ rw plain (record {
    kept = v.kept;
    arrived = v.arrived;
    sending =
        All-append IsArrival c.outgoing.ready_packets (p ∷ []) v.sending ((λ reliable. cc), tt);
    out_sequence = v.out_sequence;
    in_sequence = v.in_sequence;
    ack_in_range = v.ack_in_range;
    ack_arrived = v.ack_arrived;
  })
]

-- Taking a packet from either queue keeps a connection valid.
pub pop_outgoing-IsValid : {c : Connection} → IsValid c → IsValid (pop_ready_outgoing_packet c).1
unfolding pop_ready_outgoing_packet pop_next_ready_packet has_received_packet
pop_outgoing-IsValid {c} v = ground arith

pub pop_incoming-IsValid : {c : Connection} → IsValid c → IsValid (pop_ready_incoming_packet c).1
unfolding pop_ready_incoming_packet pop_next_ready_packet has_received_packet
pop_incoming-IsValid {c} v = ground arith
