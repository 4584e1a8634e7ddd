-- ===== src/Interleaving/Noting.antt =====
-- `Received` on a reliable packet, from the end of its acks to the update of the ack id.
use gio_net.Base.{◌≡◌, refl, sym, ◌∙◌, true, false, arith, inl, inr, ◌==◌, ok, ok_injective, List}
use mathlib.Core.Path.{subst}
use gio_net.Buffer.{Buffer}
use gio_net.Packet.{Packet, is_reliable}
use gio_net.Connection.{Connection, has_received_packet, ack_count, update_ack_id}
use gio_net.Connection.Ids.{IsId}
use gio_net.Connection.AckId.{latest_id-IsId, latest_id_cases}
use gio_net.Connection.Invariant.{IsValid}
use gio_net.System.Genuine.{IsGenuine}
use gio_net.Interleaving.{Host, acking, noted, with_connection, note_packet}
use gio_net.Interleaving.Settled.{settled, IsNoted, IsSettled}
use gio_net.Interleaving.User.{moved, same-Grows}
use gio_net.Interleaving.Sending.{sends-Flows, hears-Flows}
use gio_net.Interleaving.Acking.{listener_at, idle_sending}

pub note_packet_lem :
    (p : Packet) (c : Connection) → IsId p.id → note_packet p c ≡ ok (update_ack_id p.id c)
unfolding note_packet
note_packet_lem p c id = let some_id : (p.id == 0) ≡ false = ground arith in rw some_id refl

-- The ack id after the update is that of the packet, or that of one that has arrived.
updated-IsNoted :
    (sent : List Buffer) (p : Packet) (c : Connection)
    → IsValid c
    → is_reliable p ≡ true
    → IsId p.id
    → IsGenuine sent p
    → IsNoted sent p (update_ack_id p.id c)
unfolding update_ack_id has_received_packet
updated-IsNoted sent p c v reliable id genuine = record {
  reliable = reliable;
  id = id;
  genuine = genuine;
  ack_id = latest_id-IsId c.current_ack_id p.id v.ack_in_range id;
  held = elim (latest_id_cases c.current_ack_id p.id) [
    | inl new ↦ inl (sym new)
    | inr old ↦ elim v.ack_arrived [ inl z ↦ absurd (old.1 z) | inr r ↦ inr (rw (old.0) r) ]
  ];
}

-- Without an ack id a connection is as valid.
unsettled-IsValid : (c : Connection) → IsValid c → IsValid (record c { current_ack_id = 0 })
unfolding has_received_packet
unsettled-IsValid c v = record {
  kept = v.kept;
  arrived = v.arrived;
  sending = v.sending;
  out_sequence = v.out_sequence;
  in_sequence = v.in_sequence;
  ack_in_range = omega arith;
  ack_arrived = inl refl;
}

pub notes-IsSettled :
    (a b : Host) (p : Packet) (d : Connection)
    → IsSettled a b
    → a.listener ≡ acking p ack_count
    → is_reliable p ≡ true
    → note_packet p a.side.connection ≡ ok d
    → IsSettled (record a { side = with_connection d a.side; listener = noted p }) b
unfolding update_ack_id has_received_packet
notes-IsSettled a b p d i e reliable success =
    let j = listener_at e i in
    let (id, genuine) = j.own.listening.0 reliable in
    let c = a.side.connection in
    let now = ok_injective (sym (note_packet_lem p c id) ∙ success) in
    let c0 : Connection = record c { current_ack_id = 0 } in
    let g = same-Grows a.side (with_connection (update_ack_id p.id c) a.side) refl refl in
    let valid = j.inward.tracks.valid in
    subst (λ x. IsSettled (record a { side = with_connection x a.side; listener = noted p }) b) now
      (moved (record a { listener = acking p ack_count })
        (record a { side = with_connection (update_ack_id p.id c) a.side; listener = noted p }) b j
        (sends-Flows a.side (settled b) c0 j.outward refl
          (record { waiting = j.outward.outgoing.waiting; queue = j.outward.outgoing.queue })
          (λ id h k. k))
        (hears-Flows a.side (settled b) c0 j.inward (unsettled-IsValid c valid) refl) g
        (record {
          listening = updated-IsNoted b.side.sent p c valid reliable id genuine;
          sending =
              idle_sending a (acking p ack_count) (noted p)
                (with_connection (update_ack_id p.id c) a.side) (λ id w. w) g j.own.sending;
        }))
