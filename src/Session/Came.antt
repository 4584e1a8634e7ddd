-- ===== src/Session/Came.antt =====
-- The packets that come to a side, as it goes on: each that is not reliable has a payload that
-- the other side scheduled in such a packet.
use gio_net.Base.{
  ◌≡◌, refl, sym, ap, ◌∙◌, true, List, [], ◌∷◌, ◌++◌, All, All-append, append_assoc, inl, inr,
  Bool-cases, ok, ok_injective,
}
use mathlib.Core.Path.{subst}
use gio_net.Buffer.{Buffer}
use gio_net.Packet.{Packet, is_reliable}
use gio_net.Connection.{Connection, received}
use gio_net.Connection.Ids.{IsId}
use gio_net.Connection.Invariant.{IsValid, insert-IsFiled}
use gio_net.Connection.Received.{received_reliable, received_unreliable}
use gio_net.Connection.Delivery.Tracks.{pop_lem}
use gio_net.System.{
  Side, Acts, schedules, transmits, receives, takes, loses, side_schedules, side_transmits,
  side_takes, In,
}
use gio_net.System.Genuine.{All-In}
use gio_net.System.Popped.{nothing, front, pop-Popped}
use gio_net.System.Receiver.{schedule-incoming}
use gio_net.Session.Plain.{Plain, Tells, All-run, filed-Tells}

-- What `Received` puts behind the queue.
abbrev Queues : List Buffer → Connection → Connection → Type 0
Queues u c d =
    (more : List Packet) × (d.incoming.ready_packets ≡ c.incoming.ready_packets ++ more)
    × All (Tells u) more

received-Queues :
    (u : List Buffer) (c d : Connection) (p : Packet)
    → IsValid c
    → (is_reliable p ≡ true → IsId p.id)
    → received c p ≡ ok d
    → Tells u p
    → Queues u c d
received-Queues u c d p v arrival e h = elim (Bool-cases (is_reliable p)) [
  | inl reliable ↦
      let id = arrival reliable in
      let (d1, e1, a) = received_reliable c p v reliable id in
      let filed =
        insert-IsFiled p.id p c.incoming.reliable_packets (refl, (reliable, id)) v.arrived in
      let queues : Queues u c d1 = (
        a.delivers.run,
        a.delivers.queued,
        All-run (Tells u) _ _ _ a.delivers.run (filed-Tells u _ filed) a.delivers.in_order,
      ) in
      subst (Queues u c) (ok_injective (sym e1 ∙ e)) queues
  | inr plain ↦
      subst (Queues u c) (ok_injective (sym (received_unreliable c p plain) ∙ e))
        (p ∷ [], refl, (h, tt))
]

module _ (u : List Buffer) (a b : Side) where
  -- Only what the side has taken, and what is ready there, counts.
  came-Plain :
      (b1 : Side)
      → b1.taken ++ b1.connection.incoming.ready_packets
        ≡ b.taken ++ b.connection.incoming.ready_packets
      → Plain u a b
      → Plain u a b1
  came-Plain b1 same k = record {
    outgoing = k.outgoing;
    under_way = k.under_way;
    came = rw same k.came;
  }

  transmits-came : Plain u a b → Plain u a (side_transmits b)
  unfolding side_transmits
  transmits-came k = elim (pop-Popped b.connection) [
    | nothing e now ↦ rw now (came-Plain _ refl k)
    | front p ps e now ↦ rw now (came-Plain _ refl k)
  ]

  takes-came : Plain u a b → Plain u a (side_takes b)
  unfolding side_takes
  takes-came k =
      let (queue, _, _) = pop_lem b.connection in
      came-Plain (side_takes b) (append_assoc b.taken _ _ ∙ ap (λ ps. b.taken ++ ps) queue) k

  receives-came :
      (p : Packet) (d : Connection)
      → IsValid b.connection
      → (is_reliable p ≡ true → IsId p.id)
      → In p a.wire
      → received b.connection p ≡ ok d
      → Plain u a b
      → Plain u a (record b { connection = d })
  receives-came p d v arrival there e k =
      let h = All-In (Tells u) p a.wire k.under_way there in
      let (more, queued, all) = received-Queues u b.connection d p v arrival e h in
      let ready = b.connection.incoming.ready_packets in
      record {
        outgoing = k.outgoing;
        under_way = k.under_way;
        came =
            rw (queued, ← append_assoc b.taken ready more)
              (All-append (Tells u) (b.taken ++ ready) more k.came all);
      }

-- Whatever the side does.
pub Acts-came :
    {a b b1 : Side} (u : List Buffer)
    → Acts a b b1
    → IsValid b.connection
    → ((p : Packet) → In p a.wire → is_reliable p ≡ true → IsId p.id)
    → Plain u a b
    → Plain u a b1
unfolding side_schedules
Acts-came {a} {b} u (schedules p few) v ids k =
    came-Plain u a b _ (ap (λ s. b.taken ++ s.ready_packets) (schedule-incoming b.connection p)) k
Acts-came {a} {b} u transmits v ids k = transmits-came u a b k
Acts-came {a} {b} u (receives p d there e) v ids k =
    receives-came u a b p d v (ids p there) there e k
Acts-came {a} {b} u takes v ids k = takes-came u a b k
Acts-came {a} {b} u (loses n) v ids k = came-Plain u a b _ refl k
