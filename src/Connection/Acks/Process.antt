-- ===== src/Connection/Acks/Process.antt =====
-- `ProcessAcks`: which packets stop waiting for an ack, and which are sent once more.
use mathlib.Core.Path.{ap₂, subst}
use gio_net.Base.{
  ℕ, zero, suc, ◌+◌, ◌<◌, ◌≡◌, ◌≢◌, refl, sym, ap, Bool, false, ◌&&◌, ◌||◌, arith, none, List, [],
  ◌++◌, append_assoc, append-nil, if◌then◌else◌, u16, ◌==◌, Bool-cases, inl, inr,
}
use gio_net.Base.Map.{Map, find, erase, find-erase}
use gio_net.Packet.{Packet}
use gio_net.Connection.{Connection, process_acks, process_bits, packet_acked, reschedule_packet}
use gio_net.Connection.Acks.{behind, test_bit, acknowledges, resent, resends, to_list}

abbrev waiting : Connection → Map Packet
waiting c = c.outgoing.reliable_packets

abbrev queued : Connection → List Packet
queued c = c.outgoing.ready_packets

reschedule_lem :
    (id : ℕ) (c : Connection)
    → (waiting (reschedule_packet id c) ≡ waiting c)
      × (queued (reschedule_packet id c) ≡ queued c ++ to_list (find id (waiting c)))
      × ((reschedule_packet id c).incoming ≡ c.incoming)
      × ((reschedule_packet id c).current_ack_id ≡ c.current_ack_id)
unfolding reschedule_packet
reschedule_lem id c = ground (arith, append-nil (queued c))

-- The bits from `i` on, over the ids behind `from`, in the order of the loop.
covers : ℕ → ℕ → ℕ → ℕ → ℕ → Bool
covers zero i bitset from id = false
covers (suc rounds) i bitset from id =
    test_bit i bitset && behind 1 from == id || covers rounds (i + 1) bitset (behind 1 from) id

resends_from : ℕ → ℕ → ℕ → ℕ → Map Packet → List Packet
resends_from zero i bitset from m = []
resends_from (suc rounds) i bitset from m =
    resent (test_bit i bitset) (behind 1 from) m
    ++ resends_from rounds (i + 1) bitset (behind 1 from) m

process_bits-find :
    (rounds i bitset from id : ℕ) (c : Connection)
    → find id (waiting (process_bits rounds i bitset from c))
      ≡ (if covers rounds i bitset from id then none else find id (waiting c))
unfolding process_bits covers packet_acked
process_bits-find zero i bitset from id c = refl
process_bits-find (suc rounds) i bitset from id c = elim (Bool-cases (test_bit i bitset)) [
  | inl on ↦
      rw
        (
          on,
          process_bits-find rounds (i + 1) bitset (behind 1 from) id
              (packet_acked (behind 1 from) c),
        )
        (ground (arith, find-erase (behind 1 from) id (waiting c)))
  | inr off ↦
      rw
        (
          off,
          process_bits-find rounds (i + 1) bitset (behind 1 from) id
              (reschedule_packet (behind 1 from) c),
          (reschedule_lem (behind 1 from) c).0,
        )
        refl
]

-- A single ack, and a single bit.
pub find-packet_acked :
    (k id : ℕ) (c : Connection)
    → find id (waiting (packet_acked k c)) ≡ (if k == id then none else find id (waiting c))
unfolding packet_acked
find-packet_acked k id c = find-erase k id (waiting c)

pub find-process_bit :
    (i bitset from id : ℕ) (c : Connection)
    → find id (waiting (process_bits 1 i bitset from c))
      ≡ (if test_bit i bitset && behind 1 from == id then none else find id (waiting c))
unfolding covers
find-process_bit i bitset from id c = rw (process_bits-find 1 i bitset from id c) (ground arith)

resent-erase : (b : Bool) (k j : ℕ) (m : Map Packet) → k ≢ j → resent b j (erase k m) ≡ resent b j m
resent-erase b k j m ne = ground (arith, find-erase k j m)

-- An id that is acked in this round is none of those that later rounds send once more.
resends_from-erase :
    (rounds i bitset from ahead : ℕ) (m : Map Packet)
    → ahead + rounds < 65536
    → resends_from rounds i bitset from (erase (u16 (from + ahead)) m)
      ≡ resends_from rounds i bitset from m
unfolding resends_from
resends_from-erase zero i bitset from ahead m h = refl
resends_from-erase (suc rounds) i bitset from ahead m h =
    let e : u16 (from + ahead) ≡ u16 (behind 1 from + (ahead + 1)) = omega arith in
    ap₂ ◌++◌ (resent-erase (test_bit i bitset) (u16 (from + ahead)) (behind 1 from) m (omega arith))
      (rw e (resends_from-erase rounds (i + 1) bitset (behind 1 from) (ahead + 1) m (omega arith)))

resends_from-erase_self :
    (rounds i bitset from : ℕ) (m : Map Packet)
    → rounds < 65536
    → from < 65536
    → resends_from rounds i bitset from (erase from m) ≡ resends_from rounds i bitset from m
resends_from-erase_self rounds i bitset from m h k =
    let e : u16 (from + 0) ≡ from = omega arith in
    subst
      (λ key. resends_from rounds i bitset from (erase key m) ≡ resends_from rounds i bitset from m)
      e (resends_from-erase rounds i bitset from 0 m (omega arith))

process_bits-queued :
    (rounds i bitset from : ℕ) (c : Connection)
    → rounds < 65536
    → queued (process_bits rounds i bitset from c)
      ≡ queued c ++ resends_from rounds i bitset from (waiting c)
unfolding process_bits resends_from packet_acked
process_bits-queued zero i bitset from c h = sym (append-nil (queued c))
process_bits-queued (suc rounds) i bitset from c h = elim (Bool-cases (test_bit i bitset)) [
  | inl on ↦
      rw
        (
          on,
          process_bits-queued rounds (i + 1) bitset (behind 1 from) (packet_acked (behind 1 from) c)
              (omega arith),
        )
        (ap (◌++◌ (queued c)) (
          resends_from-erase_self rounds (i + 1) bitset (behind 1 from) (waiting c) (omega arith)
            (omega arith)))
  | inr off ↦
      let r = reschedule_lem (behind 1 from) c in
      rw
        (
          off,
          process_bits-queued rounds (i + 1) bitset (behind 1 from)
              (reschedule_packet (behind 1 from) c) (omega arith),
          r.0,
          r.1,
        )
        (append_assoc (queued c) (to_list (find (behind 1 from) (waiting c))) _)
]

behind_two : (id : ℕ) → behind 1 (behind 1 id) ≡ behind 2 id
behind_two id = omega arith

behind_three : (id : ℕ) → behind 1 (behind 2 id) ≡ behind 3 id
behind_three id = omega arith

behind_four : (id : ℕ) → behind 1 (behind 3 id) ≡ behind 4 id
behind_four id = omega arith

-- A header takes exactly the ids that it acknowledges off the packets that wait for an ack.
pub find-process_acks :
    (c : Connection) (p : Packet) (id : ℕ)
    → find id (process_acks c p).outgoing.reliable_packets
      ≡ (if acknowledges p id then none else find id c.outgoing.reliable_packets)
unfolding process_acks covers packet_acked
find-process_acks c p id =
    rw
      (
        process_bits-find 4 0 p.ack_bitset p.ack_id id (packet_acked p.ack_id c),
        behind_two p.ack_id,
        behind_three p.ack_id,
        behind_four p.ack_id,
      )
      (ground (arith, find-erase p.ack_id id (waiting c)))

-- After a header whose ack id is a 16-bit number: of the four ids behind the ack id, those whose
-- bit is off and that still wait for their ack are queued once more, in that order, behind what
-- was queued.
pub ready_packets-process_acks :
    (c : Connection) (p : Packet)
    → p.ack_id < 65536
    → (process_acks c p).outgoing.ready_packets
      ≡ c.outgoing.ready_packets ++ resends p c.outgoing.reliable_packets
unfolding process_acks resends_from packet_acked
ready_packets-process_acks c p h =
    rw (process_bits-queued 4 0 p.ack_bitset p.ack_id (packet_acked p.ack_id c) (omega arith)) (
      ap (◌++◌ (queued c)) (
        rw (resends_from-erase_self 4 0 p.ack_bitset p.ack_id (waiting c) (omega arith) h)
          (rw (behind_two p.ack_id, behind_three p.ack_id, behind_four p.ack_id) refl)))

-- The other parts of the connection stay as they are.
pub record SameButWaiting (c d : Connection) : Type 0 where
  pub same_address : d.address ≡ c.address
  pub same_incoming : d.incoming ≡ c.incoming
  pub same_ack_id : d.current_ack_id ≡ c.current_ack_id
  pub same_sequence : d.outgoing.sequence_number ≡ c.outgoing.sequence_number

pub packet_acked_frame : (id : ℕ) (c : Connection) → SameButWaiting c (packet_acked id c)
unfolding packet_acked
packet_acked_frame id c = record {
  same_address = refl;
  same_incoming = refl;
  same_ack_id = refl;
  same_sequence = refl;
}

pub process_bits_frame :
    (rounds i bitset from : ℕ) (c : Connection)
    → SameButWaiting c (process_bits rounds i bitset from c)
unfolding process_bits packet_acked reschedule_packet
process_bits_frame zero i bitset from c = ground arith
process_bits_frame (suc rounds) i bitset from c = ground (
  arith,
  process_bits_frame rounds (i + 1) bitset (behind 1 from) (packet_acked (behind 1 from) c),
  process_bits_frame rounds (i + 1) bitset (behind 1 from) (reschedule_packet (behind 1 from) c),
)

pub process_acks_frame : (c : Connection) (p : Packet) → SameButWaiting c (process_acks c p)
unfolding process_acks packet_acked
process_acks_frame c p =
    let rest = process_bits_frame 4 0 p.ack_bitset p.ack_id (packet_acked p.ack_id c) in
    record {
      same_address = rest.same_address;
      same_incoming = rest.same_incoming;
      same_ack_id = rest.same_ack_id;
      same_sequence = rest.same_sequence;
    }
