-- ===== src/Session/Plain.antt =====
-- The packets of one direction that are not reliable: whatever becomes of them, each has a
-- payload that was scheduled in such a packet.
use gio_net.Base.{
  ℕ, ◌≡◌, refl, true, false, List, [], ◌∷◌, ◌++◌, All, All-append, append-nil, inl, inr, Bool-cases,
  if◌then◌else◌, ok,
}
use gio_net.Base.Map.{Map}
use gio_net.Buffer.{Buffer}
use gio_net.Packet.{Packet, is_reliable}
use gio_net.Connection.{
  Connection, received, add_ack_header, pop_ready_incoming_packet, pop_next_ready_packet,
  next_expected,
}
use gio_net.Connection.Enqueue.{Run}
use gio_net.Connection.Ids.{IsId}
use gio_net.Connection.Invariant.{IsValid, IsFiled}
use gio_net.Connection.Schedule.{schedule_reliable, schedule_unreliable}
use gio_net.Connection.Delivery.Tracks.{All-find, All-insert}
use gio_net.System.{
  Side, Acts, schedules, transmits, receives, takes, loses, side_schedules, side_transmits,
  side_takes, In,
}
use gio_net.System.Genuine.{OfEntry, Outgoing, All-weaken, All-remove, process_acks-Outgoing}
use gio_net.System.Popped.{nothing, front, pop-Popped, received-outgoing}

-- A packet that is not reliable has one of these payloads.
abbrev pub Tells : List Buffer → Packet → Type 0
Tells u p = is_reliable p ≡ false → In p.payload u

-- From `a` to `b`: the packets that wait, that are under way, and that have come.
pub record Plain (u : List Buffer) (a b : Side) : Type 0 where
  pub outgoing : Outgoing (Tells u) a.connection
  pub under_way : All (Tells u) a.wire
  pub came : All (Tells u) (b.taken ++ b.connection.incoming.ready_packets)

In-append : (x : Buffer) (xs ys : List Buffer) → In x xs → In x (xs ++ ys)
In-append x [] ys i = absurd i
In-append x (y ∷ xs) ys (inl e) = inl e
In-append x (y ∷ xs) ys (inr i) = inr (In-append x xs ys i)

In-last : (x : Buffer) (xs : List Buffer) → In x (xs ++ (x ∷ []))
In-last x [] = inl refl
In-last x (y ∷ xs) = inr (In-last x xs)

module _ (u more : List Buffer) where
  Tells-append : (p : Packet) → Tells u p → Tells (u ++ more) p
  Tells-append p h plain = In-append p.payload u more (h plain)

  All-Tells-append : (ps : List Packet) → All (Tells u) ps → All (Tells (u ++ more)) ps
  All-Tells-append ps a = All-weaken (Tells u) (Tells (u ++ more)) Tells-append ps a

  Plain-append : {a b : Side} → Plain u a b → Plain (u ++ more) a b
  Plain-append {a} {b} k = record {
    outgoing = record {
      waiting =
          All-weaken (OfEntry (Tells u)) (OfEntry (Tells (u ++ more))) (λ e h. Tells-append e.1 h)
            a.connection.outgoing.reliable_packets k.outgoing.waiting;
      queue = All-Tells-append a.connection.outgoing.ready_packets k.outgoing.queue;
    };
    under_way = All-Tells-append a.wire k.under_way;
    came = All-Tells-append _ k.came;
  }

-- A run of packets of the map.
pub All-run :
    (P : Packet → Type 0) (m : Map Packet) (from to : ℕ) (ps : List Packet)
    → All (OfEntry P) m
    → Run m from ps to
    → All P ps
All-run P m from to [] a r = tt
All-run P m from to (p ∷ ps) a r =
    (All-find P (next_expected from) p m a r.0, All-run P m (next_expected from) to ps a r.1)

pub filed-Tells : (u : List Buffer) (m : Map Packet) → All IsFiled m → All (OfEntry (Tells u)) m
filed-Tells u m a =
    All-weaken IsFiled (OfEntry (Tells u)) (λ e h plain. let reliable = h.1.0 in cc) m a

-- What is scheduled joins the payloads, unless it is reliable.
abbrev pub with_payload : Packet → List Buffer → List Buffer
with_payload p u = if is_reliable p then u else u ++ (p.payload ∷ [])

schedules-Plain :
    (u : List Buffer) (a b : Side) (p : Packet)
    → IsValid a.connection
    → Plain u a b
    → Plain (with_payload p u) (side_schedules p a) b
unfolding side_schedules is_reliable
schedules-Plain u a b p v k = elim (Bool-cases (is_reliable p)) [
  | inl reliable ↦
      let next = next_expected a.connection.outgoing.sequence_number in
      let fits : Tells u (record p { id = next }) = λ plain. cc in
      rw (reliable, schedule_reliable a.connection p v.out_sequence reliable)
        (record {
          outgoing = record {
            waiting =
                All-insert (Tells u) next (record p { id = next })
                  a.connection.outgoing.reliable_packets fits k.outgoing.waiting;
            queue =
                All-append (Tells u) a.connection.outgoing.ready_packets _ k.outgoing.queue
                  (fits, tt);
          };
          under_way = k.under_way;
          came = k.came;
        })
  | inr plain ↦
      let more = u ++ (p.payload ∷ []) in
      let grown : Plain more a b = Plain-append u (p.payload ∷ []) k in
      rw (plain, schedule_unreliable a.connection p plain)
        (record {
          outgoing = record {
            waiting = grown.outgoing.waiting;
            queue =
                All-append (Tells more) a.connection.outgoing.ready_packets (p ∷ [])
                  grown.outgoing.queue ((λ _. In-last p.payload u), tt);
          };
          under_way = grown.under_way;
          came = grown.came;
        })
]

transmits-Plain : (u : List Buffer) (a b : Side) → Plain u a b → Plain u (side_transmits a) b
unfolding side_transmits is_reliable
transmits-Plain u a b k = elim (pop-Popped a.connection) [
  | nothing e now ↦ rw now (record {
    outgoing = k.outgoing;
    under_way = rw (append-nil a.wire) k.under_way;
    came = k.came;
  })
  | front p ps e now ↦
      let queue = rw e at k.outgoing.queue in
      rw now (record {
        outgoing = record { waiting = k.outgoing.waiting; queue = queue.1 };
        under_way =
            All-append (Tells u) a.wire _ k.under_way ((unfold add_ack_header in queue.0), tt);
        came = k.came;
      })
]

receives-Plain :
    (u : List Buffer) (a b : Side) (p : Packet) (d : Connection)
    → IsValid a.connection
    → (is_reliable p ≡ true → IsId p.id)
    → received a.connection p ≡ ok d
    → Plain u a b
    → Plain u (record a { connection = d }) b
receives-Plain u a b p d v arrival e k =
    let same = received-outgoing a.connection d p v arrival e in
    let acked = process_acks-Outgoing (Tells u) a.connection p k.outgoing in
    record {
      outgoing = record { waiting = rw same acked.waiting; queue = rw same acked.queue };
      under_way = k.under_way;
      came = k.came;
    }

takes-Plain : (u : List Buffer) (a b : Side) → Plain u a b → Plain u (side_takes a) b
unfolding side_takes pop_ready_incoming_packet pop_next_ready_packet
takes-Plain u a b k = record {
  outgoing = record { waiting = k.outgoing.waiting; queue = k.outgoing.queue };
  under_way = k.under_way;
  came = k.came;
}

-- The payloads once a side has done this.
abbrev pub told : {a b a1 : Side} → Acts b a a1 → List Buffer → List Buffer
told (schedules p few) u = with_payload p u
told transmits u = u
told (receives p d there e) u = u
told takes u = u
told (loses n) u = u

-- The packets that a side sends.
pub Acts-Plain :
    {a b a1 : Side} (u : List Buffer) (act : Acts b a a1)
    → IsValid a.connection
    → ((p : Packet) → In p b.wire → is_reliable p ≡ true → IsId p.id)
    → Plain u a b
    → Plain (told act u) a1 b
Acts-Plain {a} {b} u (schedules p few) v ids k = schedules-Plain u a b p v k
Acts-Plain {a} {b} u transmits v ids k = transmits-Plain u a b k
Acts-Plain {a} {b} u (receives p d there e) v ids k = receives-Plain u a b p d v (ids p there) e k
Acts-Plain {a} {b} u takes v ids k = takes-Plain u a b k
Acts-Plain {a} {b} u (loses n) v ids k = record {
  outgoing = record { waiting = k.outgoing.waiting; queue = k.outgoing.queue };
  under_way = All-remove (Tells u) n a.wire k.under_way;
  came = k.came;
}
