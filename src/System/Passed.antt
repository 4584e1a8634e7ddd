-- ===== src/System/Passed.antt =====
-- A packet that the acks have passed does not arrive.
use gio_net.Base.{
  ℕ, ◌-◌, ◌≡◌, ◌≢◌, ◌<◌, ◌≤◌, refl, sym, ap, ◌∙◌, true, false, arith, none, All, All-append, length,
  inl, inr, Option-cases, Bool-cases, ok, ok_injective, append-nil,
}
use mathlib.Core.Path.{subst}
use gio_net.Base.Map.{Map, find, insert, contains}
use gio_net.Packet.{Packet, is_reliable}
use gio_net.Connection.{
  get_index_for_next_packet, Connection, received, has_received_packet, schedule, add_ack_header,
  pop_ready_incoming_packet, pop_next_ready_packet,
}
use gio_net.Connection.Ids.{IsId}
use gio_net.Connection.Acks.Process.{process_acks_frame}
use gio_net.Connection.Received.{Accepted, received_reliable, received_unreliable}
use gio_net.System.{
  Side, Acts, schedules, transmits, receives, takes, loses, side_schedules, side_transmits,
  side_takes, In, remove,
}
use gio_net.System.Genuine.{IsGenuine, MayBe, All-In, All-remove}
use gio_net.System.Flows.{Flows}
use gio_net.System.Popped.{nothing, front, pop-Popped, contains-insert}
use gio_net.System.Receiver.{schedule-incoming}
use gio_net.System.Stall.{half_limit, IsOther, IsFar, IsGone, IsPassed, latest_id-max, Run-stops}
use gio_net.System.Genuine.{get_elem?-lt}
use gio_net.Packet.{Packet}

pub schedule-ack : (c : Connection) (p : Packet) → (schedule c p).current_ack_id ≡ c.current_ack_id
unfolding schedule get_index_for_next_packet
schedule-ack c p = ground arith

contains-none : (k : ℕ) (m : Map Packet) → contains k m ≡ false → find k m ≡ none
unfolding contains
contains-none k m h = elim (Option-cases (find k m)) [ inl e ↦ e | inr (p, e) ↦ ground (arith, e) ]

-- What the receiver does brings it no nearer to k.
module _ (k : ℕ) (pos : 0 < k) (small : k ≤ half_limit) (a b : Side) (f : Flows a b) where
  same-IsPassed :
      (b1 : Side)
      → b1.connection.incoming.reliable_packets ≡ b.connection.incoming.reliable_packets
      → b1.connection.incoming.sequence_number ≡ b.connection.incoming.sequence_number
      → b1.connection.current_ack_id ≡ b.connection.current_ack_id
      → All (IsFar k) b1.wire
      → IsPassed k b
      → IsPassed k b1
  unfolding has_received_packet
  same-IsPassed b1 same_map same_sequence same_ack far p = record {
    missing = rw same_map p.missing;
    behind_it = rw same_sequence p.behind_it;
    passed = rw same_ack p.passed;
    recent = rw same_ack p.recent;
    headers = far;
  }

  schedules-IsPassed : (p : Packet) → IsPassed k b → IsPassed k (side_schedules p b)
  unfolding side_schedules
  schedules-IsPassed p passed =
      let same = schedule-incoming b.connection p in
      same-IsPassed (side_schedules p b) (ap (λ s. s.reliable_packets) same)
        (ap (λ s. s.sequence_number) same) (schedule-ack b.connection p) passed.headers passed

  transmits-IsPassed : IsPassed k b → IsPassed k (side_transmits b)
  unfolding side_transmits
  transmits-IsPassed passed = elim (pop-Popped b.connection) [
    | nothing e now ↦
        rw now (same-IsPassed _ refl refl refl (rw (append-nil b.wire) passed.headers) passed)
    | front p ps e now ↦ rw now (
        same-IsPassed _ refl refl refl
          (All-append (IsFar k) b.wire _ passed.headers
            ((unfold add_ack_header in (omega (arith, passed.recent), inr passed.passed)), tt))
          passed)
  ]

  -- A reliable packet other than k.
  Accepted-IsPassed :
      (p : Packet) (d : Connection)
      → length a.sent ≤ half_limit
      → is_reliable p ≡ true
      → p.id ≢ k
      → IsId p.id
      → IsGenuine a.sent p
      → Accepted b.connection p d
      → IsPassed k b
      → IsPassed k (record b { connection = d })
  Accepted-IsPassed p d few reliable other id genuine acc passed =
      let m = b.connection.incoming.reliable_packets in
      let inside : p.id ≤ half_limit =
        omega (arith, get_elem?-lt a.sent (p.id - 1) p.payload genuine) in
      let grows =
        latest_id-max b.connection.current_ack_id p.id (omega (arith, passed.passed)) passed.recent
          inside in
      let not_there : contains k (insert p.id p m) ≡ false =
        let lacking : contains k m ≡ false = unfold has_received_packet in passed.missing in
        rw (contains-insert p.id k p m) (ground (arith, lacking)) in
      record {
        missing = unfold has_received_packet in rw acc.delivers.same_map not_there;
        behind_it =
            Run-stops (insert p.id p m) b.connection.incoming.sequence_number
              d.incoming.sequence_number k acc.delivers.run
              (contains-none k (insert p.id p m) not_there) passed.behind_it small
              acc.delivers.in_order;
        passed = rw acc.new_ack (omega (arith, grows.0, passed.passed));
        recent = rw acc.new_ack grows.1;
        headers = passed.headers;
      }

  receives-IsPassed :
      (p : Packet) (d : Connection)
      → length a.sent ≤ half_limit
      → In p a.wire
      → received b.connection p ≡ ok d
      → IsGone k a
      → IsPassed k b
      → IsPassed k (record b { connection = d })
  receives-IsPassed p d few there e gone passed = elim (Bool-cases (is_reliable p)) [
    | inl reliable ↦
        let arrival = All-In (MayBe a.sent) p a.wire f.under_way there reliable in
        let other = All-In (IsOther k) p a.wire gone.under_way there reliable in
        let (d1, e1, acc) = received_reliable b.connection p f.tracks.valid reliable arrival.0 in
        Accepted-IsPassed p d few reliable other arrival.0 arrival.1
          (subst (Accepted b.connection p) (ok_injective (sym e1 ∙ e)) acc) passed
    | inr plain ↦
        let same = ok_injective (sym (received_unreliable b.connection p plain) ∙ e) in
        let frame = process_acks_frame b.connection p in
        same-IsPassed (record b { connection = d })
          (ap (λ x. x.incoming.reliable_packets) (sym same))
          (ap (λ x. x.incoming.sequence_number) (sym same))
          (ap (λ x. x.current_ack_id) (sym same) ∙ frame.same_ack_id) passed.headers passed
  ]

  pub Acts-IsPassed :
      {b1 : Side}
      → Acts a b b1
      → length a.sent ≤ half_limit
      → IsGone k a
      → IsPassed k b
      → IsPassed k b1
  unfolding side_takes pop_ready_incoming_packet pop_next_ready_packet
  Acts-IsPassed (schedules p _) few gone passed = schedules-IsPassed p passed
  Acts-IsPassed transmits few gone passed = transmits-IsPassed passed
  Acts-IsPassed (receives p d there e) few gone passed =
      receives-IsPassed p d few there e gone passed
  Acts-IsPassed takes few gone passed =
      same-IsPassed (side_takes b) (ground arith) (ground arith) refl passed.headers passed
  Acts-IsPassed (loses n) few gone passed =
      same-IsPassed (record b { wire = remove n b.wire }) refl refl refl
        (All-remove (IsFar k) n b.wire passed.headers) passed
