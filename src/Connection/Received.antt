-- ===== src/Connection/Received.antt =====
-- `Received`, on each of its branches.
use mathlib.Core.Path.{subst₂}
use gio_net.Base.{
  ℕ, ◌≡◌, ◌<◌, ◌↔◌, refl, ap, true, false, arith, [], ◌∷◌, ◌++◌, if◌then◌else◌, ◌==◌, inl, inr,
  Bool-cases, ok, fault, assertion,
}
use gio_net.Base.Map.{Map, insert, contains, find-insert}
use gio_net.Packet.{Packet, is_reliable}
use gio_net.Connection.{
  Connection, PacketStream, received, process_acks, latest_id, update_ack_id, has_received_packet,
}
use gio_net.Connection.Ids.{IsId}
use gio_net.Connection.AckId.{latest_id-IsId, latest_id_cases}
use gio_net.Connection.Acks.Process.{process_acks_frame}
use gio_net.Connection.Enqueue.{Delivers, Run-lt, enqueue_processable_packets-Delivers}
use gio_net.Connection.Invariant.{IsValid, IsArrival, insert-IsFiled, process_acks-IsValid}

-- The incoming stream with a packet filed.
abbrev pub filed : Packet → PacketStream → PacketStream
filed p s = record s { reliable_packets = insert p.id p s.reliable_packets }

-- What a reliable packet does to the connection.
pub record Accepted (c : Connection) (p : Packet) (d : Connection) : Type 0 where
  pub new_ack : d.current_ack_id ≡ latest_id c.current_ack_id p.id
  pub delivers : Delivers (latest_id c.current_ack_id p.id) (filed p c.incoming) d.incoming
  pub acked : d.outgoing ≡ (process_acks c p).outgoing
  pub same_peer : d.address ≡ c.address

-- The whole effect of a reliable packet with an id on a valid connection: `Received` returns, the
-- acks of the packet are processed, the packet is filed, the ack id is updated, and a run of
-- consecutive packets is queued.
pub received_reliable :
    (c : Connection) (p : Packet)
    → IsValid c
    → is_reliable p ≡ true
    → IsId p.id
    → (d : Connection) × (received c p ≡ ok d) × Accepted c p d
unfolding received update_ack_id
received_reliable c p v reliable id =
    let c1 = process_acks c p in
    let f = process_acks_frame c p in
    let c2 : Connection = record c1 {
      current_ack_id = latest_id c1.current_ack_id p.id;
      incoming = filed p c1.incoming;
    } in
    let looped =
      enqueue_processable_packets-Delivers c2 (rw f.same_incoming v.in_sequence)
        (rw f.same_ack_id (latest_id-IsId c.current_ack_id p.id v.ack_in_range id)) in
    let some_id : (p.id == 0) ≡ false = ground arith in
    (
      record c2 { incoming = looped.0 },
      rw (reliable, some_id) looped.1,
      record {
        new_ack = ap (λ k. latest_id k p.id) f.same_ack_id;
        delivers =
            subst₂ (λ k s. Delivers (latest_id k p.id) (filed p s) looped.0) f.same_ack_id
              f.same_incoming looped.2;
        acked = refl;
        same_peer = f.same_address;
      },
    )

received_invalid_id :
    (c : Connection) (p : Packet) → is_reliable p ≡ true → p.id ≡ 0 → received c p ≡ fault assertion
unfolding received
received_invalid_id c p reliable zero_id = rw (reliable, zero_id)

-- An unreliable packet goes straight to the queue, after its acks.
pub received_unreliable :
    (c : Connection) (p : Packet)
    → is_reliable p ≡ false
    → let d = process_acks c p in
      received c p
      ≡ ok (record d {
        incoming = record c.incoming { ready_packets = c.incoming.ready_packets ++ (p ∷ []) };
      })
unfolding received
received_unreliable c p plain = rw (plain, (process_acks_frame c p).same_incoming) refl

-- A filed packet is found, and no other is lost.
contains-filed :
    (p : Packet) (k : ℕ) (m : Map Packet)
    → contains k (insert p.id p m) ≡ (if p.id == k then true else contains k m)
unfolding contains
contains-filed p k m = ground (arith, find-insert p.id k p m)

Accepted-ack_arrived :
    (c : Connection) (p : Packet) (d : Connection)
    → IsValid c
    → Accepted c p d
    → has_received_packet d d.current_ack_id ≡ true
unfolding has_received_packet
Accepted-ack_arrived c p d v a =
    rw
      (
        a.new_ack,
        a.delivers.same_map,
        contains-filed p (latest_id c.current_ack_id p.id) c.incoming.reliable_packets,
      )
      (ground (arith, latest_id_cases c.current_ack_id p.id))

pub Accepted-IsValid :
    {c : Connection} (p : Packet) (d : Connection)
    → IsValid c
    → is_reliable p ≡ true
    → IsId p.id
    → Accepted c p d
    → IsValid d
Accepted-IsValid {c} p d v reliable id a =
    let w = process_acks-IsValid p v in
    record {
      kept = rw a.acked w.kept;
      arrived =
          rw a.delivers.same_map
            (insert-IsFiled p.id p c.incoming.reliable_packets (refl, (reliable, id)) v.arrived);
      sending = rw a.acked w.sending;
      out_sequence = rw a.acked w.out_sequence;
      in_sequence =
          Run-lt _ c.incoming.sequence_number a.delivers.run _ a.delivers.in_order v.in_sequence;
      ack_in_range = rw a.new_ack (latest_id-IsId c.current_ack_id p.id v.ack_in_range id).1;
      ack_arrived = inr (Accepted-ack_arrived c p d v a);
    }

pub received_unreliable-IsValid :
    {c : Connection} (p : Packet)
    → IsValid c
    → is_reliable p ≡ false
    → (d : Connection) × (received c p ≡ ok d) × IsValid d
received_unreliable-IsValid {c} p v plain =
    let w = process_acks-IsValid p v in
    (
      record (process_acks c p) {
        incoming = record c.incoming { ready_packets = c.incoming.ready_packets ++ (p ∷ []) };
      },
      received_unreliable c p plain,
      record {
        kept = w.kept;
        arrived = v.arrived;
        sending = w.sending;
        out_sequence = w.out_sequence;
        in_sequence = v.in_sequence;
        ack_in_range = w.ack_in_range;
        ack_arrived =
            unfold has_received_packet in rw ((process_acks_frame c p).same_ack_id) v.ack_arrived;
      },
    )

-- From a valid connection `Received` returns on every packet that is unreliable or bears an id,
-- however the packet and its acks came about, and leaves a valid connection.
pub received-IsValid :
    {c : Connection} (p : Packet)
    → IsValid c
    → IsArrival p
    → (d : Connection) × (received c p ≡ ok d) × IsValid d
received-IsValid {c} p v arrival = elim (Bool-cases (is_reliable p)) [
  | inl reliable ↦
      let r = received_reliable c p v reliable (arrival reliable) in
      (r.0, r.1, Accepted-IsValid p r.0 v reliable (arrival reliable) r.2)
  | inr plain ↦ received_unreliable-IsValid p v plain
]

-- From a valid connection a packet whose id is a 16-bit number trips the assertion of `Received`
-- just when it is reliable and bears the invalid id 0.
pub received_assertion_iff :
    {c : Connection} (p : Packet)
    → IsValid c
    → p.id < 65536
    → (received c p ≡ fault assertion) ↔ ((is_reliable p ≡ true) × (p.id ≡ 0))
received_assertion_iff {c} p v bound = (
  λ failed. elim (Bool-cases (is_reliable p)) [
    | inl reliable ↦ elim (Bool-cases (p.id == 0)) [
      | inl zero_id ↦ (reliable, ground arith)
      | inr some_id ↦ let r = received_reliable c p v reliable (ground arith) in cc
    ]
    | inr plain ↦ let r = received_unreliable c p plain in cc
  ],
  λ h. received_invalid_id c p h.0 h.1,
)
