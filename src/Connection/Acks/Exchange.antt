-- ===== src/Connection/Acks/Exchange.antt =====
-- A header that one side writes, processed by the other side.
use gio_net.Base.{
  ℕ, ◌≡◌, refl, ◌<◌, Bool, Bool-cases, true, ◌&&◌, ◌||◌, arith, none, List, [], ◌++◌, if◌then◌else◌,
  ◌==◌, ◌⊎◌, inl, inr,
}
use gio_net.Base.Map.{Map, find}
use gio_net.Packet.{Packet}
use gio_net.Connection.{Connection, process_acks, add_ack_header, has_received_packet}
use gio_net.Connection.Acks.{behind, resent}
use gio_net.Connection.Acks.Bitset.{add_ack_header_lem}
use gio_net.Connection.Acks.Process.{find-process_acks, ready_packets-process_acks}

-- What the receiver reports: its ack id, and those of the four ids behind it that it has
-- received.
abbrev pub reports : Connection → ℕ → Bool
reports r id =
    r.current_ack_id == id
    || has_received_packet r (behind 1 r.current_ack_id) && behind 1 r.current_ack_id == id
    || has_received_packet r (behind 2 r.current_ack_id) && behind 2 r.current_ack_id == id
    || has_received_packet r (behind 3 r.current_ack_id) && behind 3 r.current_ack_id == id
    || has_received_packet r (behind 4 r.current_ack_id) && behind 4 r.current_ack_id == id

-- The packets that the sender still keeps of the four, and that the receiver lacks.
abbrev pub lacks : Connection → Map Packet → List Packet
lacks r m =
    resent (has_received_packet r (behind 1 r.current_ack_id)) (behind 1 r.current_ack_id) m
    ++ (resent (has_received_packet r (behind 2 r.current_ack_id)) (behind 2 r.current_ack_id) m
        ++ (resent (has_received_packet r (behind 3 r.current_ack_id)) (behind 3 r.current_ack_id) m
            ++ (resent (has_received_packet r (behind 4 r.current_ack_id))
                  (behind 4 r.current_ack_id) m
                ++ [])))

-- A header written by a receiver, whose ack id is a 16-bit number, and processed by a sender: the
-- sender drops exactly the packets that the receiver reports, and queues exactly those of the
-- four behind the ack id that it still keeps and the receiver lacks, behind what it had queued.
pub process_acks-add_ack_header :
    (r s : Connection) (p : Packet)
    → r.current_ack_id < 65536
    → let t = process_acks s (add_ack_header r p) in
      ((id : ℕ)
        → find id t.outgoing.reliable_packets
          ≡ (if reports r id then none else find id s.outgoing.reliable_packets))
      × (t.outgoing.ready_packets ≡ s.outgoing.ready_packets ++ lacks r s.outgoing.reliable_packets)
process_acks-add_ack_header r s p h =
    let a = add_ack_header_lem r p in
    (
      λ id. rw (find-process_acks s (add_ack_header r p) id, a.0, a.1, a.2, a.3, a.4) refl,
      rw (ready_packets-process_acks s (add_ack_header r p) (rw a.0 h), a.0, a.1, a.2, a.3, a.4)
          refl,
    )

reports_held :
    (r : Connection) (id : ℕ)
    → has_received_packet r r.current_ack_id ≡ true
    → reports r id ≡ true
    → has_received_packet r id ≡ true
reports_held r id held h = ground arith

-- When a sender processes a header of a receiver whose ack id is a 16-bit number and whose packet
-- of that id has arrived, an id that no longer waits for an ack did not wait before, or the
-- receiver has received it.
pub process_acks_keeps :
    (r s : Connection) (p : Packet) (id : ℕ)
    → r.current_ack_id < 65536
    → has_received_packet r r.current_ack_id ≡ true
    → find id (process_acks s (add_ack_header r p)).outgoing.reliable_packets ≡ none
    → (find id s.outgoing.reliable_packets ≡ none) ⊎ (has_received_packet r id ≡ true)
process_acks_keeps r s p id h held gone = elim (Bool-cases (reports r id)) [
  | inl reported ↦ inr (reports_held r id held reported)
  | inr silent ↦ let e = (process_acks-add_ack_header r s p h).0 id in inl (rw (e, silent) at gone)
]
