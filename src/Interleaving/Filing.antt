-- ===== src/Interleaving/Filing.antt =====
-- `Received`, from the update of the ack id, or for an unreliable packet from the end of its
-- acks, to the end.
use gio_net.Base.{
  All, ℕ, ◌≡◌, ◌<◌, refl, sym, ◌∙◌, true, false, arith, inr, ◌==◌, if◌then◌else◌, ok, ok_injective,
  List, [], append-nil,
}
use mathlib.Core.Path.{subst}
use gio_net.Buffer.{Buffer}
use gio_net.Packet.{Packet, is_reliable}
use gio_net.Connection.{
  Connection, PacketStream, has_received_packet, ack_count, store_incoming, push_incoming,
}
use gio_net.Connection.Ids.{IsId}
use gio_net.Connection.Enqueue.{Delivers, Run-lt, enqueue_processable_packets-Delivers}
use gio_net.Connection.Invariant.{IsValid, IsFiled, insert-IsFiled}
use gio_net.Connection.Received.{filed}
use gio_net.Connection.Delivery.Tracks.{delivered-Tracks, pushed-Tracks}
use gio_net.System.Genuine.{IsGenuine}
use gio_net.System.Popped.{contains-insert}
use gio_net.System.Receiver.{Remembers, Remembers-same, IsSound-all, receiver-Flows}
use gio_net.Interleaving.{Host, free, acking, noted, with_connection, file_packet}
use gio_net.Interleaving.Settled.{settled, IsNoted, IsSettled, Grows, Sending-Grows}
use gio_net.Interleaving.User.{moved, same-Grows}
use gio_net.Interleaving.Sending.{sends-Flows}
use gio_net.Interleaving.Acking.{listener_at, idle_sending}

-- What filing does: nothing but to deliver.
pub file_packet_lem :
    (p : Packet) (c : Connection)
    → c.incoming.sequence_number < 65536
    → IsId c.current_ack_id
    → (t : PacketStream) × (file_packet p c ≡ ok (record c { incoming = t }))
      × Delivers c.current_ack_id (filed p c.incoming) t
unfolding file_packet
file_packet_lem p c h k = enqueue_processable_packets-Delivers (store_incoming p c) h k

abbrev with_incoming : Connection → PacketStream → Connection
with_incoming c t = record c { incoming = t }

module _ (p : Packet) (c : Connection) (t : PacketStream)
    (delivers : Delivers c.current_ack_id (filed p c.incoming) t) where
  received_delivered :
      (id : ℕ)
      → has_received_packet (with_incoming c t) id
        ≡ (if p.id == id then true else has_received_packet c id)
  unfolding has_received_packet
  received_delivered id =
      rw (delivers.same_map) (contains-insert p.id id p c.incoming.reliable_packets)

  delivered-Remembers : Remembers c (with_incoming c t)
  delivered-Remembers id h = ground (arith, received_delivered id, h)

  pub delivered_self : has_received_packet (with_incoming c t) p.id ≡ true
  delivered_self = ground (arith, received_delivered p.id)

  delivered-IsValid :
      (sent : List Buffer)
      → IsValid (record c { current_ack_id = 0 })
      → IsNoted sent p c
      → IsValid (with_incoming c t)
  unfolding has_received_packet
  delivered-IsValid sent v n = record {
    kept = v.kept;
    arrived =
        subst (All IsFiled) (sym delivers.same_map)
          (insert-IsFiled p.id p c.incoming.reliable_packets (refl, (n.reliable, n.id)) v.arrived);
    sending = v.sending;
    out_sequence = v.out_sequence;
    in_sequence =
        Run-lt _ c.incoming.sequence_number delivers.run _ delivers.in_order v.in_sequence;
    ack_in_range = n.ack_id.1;
    ack_arrived = inr (ground (arith, received_delivered c.current_ack_id, n.held));
  }

-- The packet is filed, and no longer is anything left out of account.
filed-IsSettled :
    (a b : Host) (p : Packet) (t : PacketStream)
    → Delivers a.side.connection.current_ack_id (filed p a.side.connection.incoming) t
    → IsSettled (record a { listener = noted p }) b
    → IsSettled
        (record a {
          side = with_connection (with_incoming a.side.connection t) a.side;
          listener = free;
        })
        b
filed-IsSettled a b p t delivers j =
    let c = a.side.connection in
    let s = with_connection (with_incoming c t) a.side in
    let n = j.own.listening in
    let valid = delivered-IsValid p c t delivers b.side.sent j.inward.tracks.valid n in
    let more = delivered-Remembers p c t delivers in
    let before = settled (record a { listener = noted p }) in
    let g : Grows a.side s = record {
      more = [];
      sent = sym (append-nil a.side.sent);
      remembers = more;
    } in
    moved (record a { listener = noted p }) (record a { side = s; listener = free }) b j
      (sends-Flows before (settled b) (with_incoming c t) j.outward refl
        (record { waiting = j.outward.outgoing.waiting; queue = j.outward.outgoing.queue })
        (λ id h k. k))
      (receiver-Flows (settled b) before s j.inward
        (delivered-Tracks (IsGenuine b.side.sent) 0 before.connection a.side.taken p
          (with_incoming c t) c.current_ack_id j.inward.tracks n.reliable n.id n.genuine valid
          delivers)
        (λ id h. more id (unfold has_received_packet in h))
        (IsSound-all before.connection (with_incoming c t) a.side.wire
          (λ id h. more id (unfold has_received_packet in h)) j.inward.headers))
      g
      (record {
        listening = tt;
        sending =
            Sending-Grows (noted p) free a.sender a.side s g
              (λ id same. inr (rw same at (delivered_self p c t delivers))) j.own.sending;
      })

pub files-IsSettled :
    (a b : Host) (p : Packet) (d : Connection)
    → IsSettled a b
    → a.listener ≡ noted p
    → file_packet p a.side.connection ≡ ok d
    → IsSettled (record a { side = with_connection d a.side; listener = free }) b
files-IsSettled a b p d i e success =
    let j = listener_at e i in
    let (t, now, delivers) =
      file_packet_lem p a.side.connection j.inward.tracks.valid.in_sequence
        j.own.listening.ack_id in
    subst (λ x. IsSettled (record a { side = with_connection x a.side; listener = free }) b)
      (ok_injective (sym now ∙ success)) (filed-IsSettled a b p t delivers j)

pushed-IsValid : (p : Packet) (c : Connection) → IsValid c → IsValid (push_incoming p c)
unfolding has_received_packet
pushed-IsValid p c v = record {
  kept = v.kept;
  arrived = v.arrived;
  sending = v.sending;
  out_sequence = v.out_sequence;
  in_sequence = v.in_sequence;
  ack_in_range = v.ack_in_range;
  ack_arrived = v.ack_arrived;
}

pub queues-IsSettled :
    (a b : Host) (p : Packet)
    → IsSettled a b
    → a.listener ≡ acking p ack_count
    → is_reliable p ≡ false
    → IsSettled
        (record a {
          side = with_connection (push_incoming p a.side.connection) a.side;
          listener = free;
        })
        b
queues-IsSettled a b p i e plain =
    let j = listener_at e i in
    let c = a.side.connection in
    let d = push_incoming p c in
    let s = with_connection d a.side in
    let g = same-Grows a.side s refl refl in
    let more = Remembers-same c d refl in
    moved (record a { listener = acking p ack_count }) (record a { side = s; listener = free }) b j
      (sends-Flows a.side (settled b) d j.outward refl
        (record { waiting = j.outward.outgoing.waiting; queue = j.outward.outgoing.queue })
        (λ id h k. k))
      (receiver-Flows (settled b) a.side s j.inward
        (pushed-Tracks (IsGenuine b.side.sent) 0 c a.side.taken p d j.inward.tracks plain
          (pushed-IsValid p c j.inward.tracks.valid) refl)
        more (IsSound-all c d a.side.wire more j.inward.headers))
      g
      (record {
        listening = tt;
        sending = idle_sending a (acking p ack_count) free s (λ id w. w) g j.own.sending;
      })
