-- ===== src/System/Gone.antt =====
-- A packet of which the sender has no copy left is not sent again.
use gio_net.Base.{
  ℕ, ◌+◌, ◌≡◌, ◌<◌, ◌≤◌, true, arith, [], ◌∷◌, All-append, length, length-append, inl, inr,
  Bool-cases, ok, append-nil,
}
use gio_net.Packet.{Packet, is_reliable}
use gio_net.Connection.{
  Connection, received, next_expected, add_ack_header, pop_ready_incoming_packet,
  pop_next_ready_packet,
}
use gio_net.Connection.Ids.{next_expected_lem}
use gio_net.Connection.Invariant.{find-IsFiled}
use gio_net.Connection.Acks.{resends}
use gio_net.Connection.Acks.Process.{ready_packets-process_acks}
use gio_net.Connection.Schedule.{schedule_reliable, schedule_unreliable}
use gio_net.System.{
  Side, limit, Acts, schedules, transmits, receives, takes, loses, side_schedules, side_transmits,
  side_takes, In,
}
use gio_net.System.Genuine.{MayBe, All-In, All-remove}
use gio_net.System.Flows.{Flows}
use gio_net.System.Popped.{nothing, front, pop-Popped, received-outgoing}
use gio_net.System.Stall.{half_limit, IsOther, IsFar, IsGone, IsPassed, resends-IsOther}
use gio_net.Packet.{Packet}

-- What the sender does brings no copy of k back.
module _ (k : ℕ) (pos : 0 < k) (small : k ≤ half_limit) (a b : Side) (f : Flows a b)
    (g : Flows b a) where
  schedules-IsGone :
      (p : Packet)
      → (is_reliable p ≡ true → length a.sent < limit)
      → IsGone k a
      → IsGone k (side_schedules p a)
  unfolding side_schedules
  schedules-IsGone p few gone = elim (Bool-cases (is_reliable p)) [
    | inl reliable ↦
        let seq = a.connection.outgoing.sequence_number in
        let seq_word : seq < 65536 = omega (arith, f.counted, f.few) in
        let now : next_expected seq ≡ length a.sent + 1 =
          omega (arith, few reliable, next_expected_lem seq, f.counted, f.few) in
        rw (reliable, schedule_reliable a.connection p seq_word reliable)
          (record {
            scheduled = omega (arith, gone.scheduled, length-append a.sent (p.payload ∷ []));
            queue =
                All-append (IsOther k) a.connection.outgoing.ready_packets _ gone.queue
                  ((λ _ same. omega (arith, now, same, gone.scheduled)), tt);
            under_way = gone.under_way;
          })
    | inr plain ↦
        rw (plain, schedule_unreliable a.connection p plain)
          (record {
            scheduled = gone.scheduled;
            queue =
                All-append (IsOther k) a.connection.outgoing.ready_packets (p ∷ []) gone.queue
                  ((λ reliable. cc), tt);
            under_way = gone.under_way;
          })
  ]

  transmits-IsGone : IsGone k a → IsGone k (side_transmits a)
  unfolding side_transmits is_reliable
  transmits-IsGone gone = elim (pop-Popped a.connection) [
    | nothing e now ↦ rw now (record {
      scheduled = gone.scheduled;
      queue = gone.queue;
      under_way = rw (append-nil a.wire) gone.under_way;
    })
    | front p ps e now ↦
        let queue = rw e at gone.queue in
        rw now (record {
          scheduled = gone.scheduled;
          queue = queue.1;
          under_way =
              All-append (IsOther k) a.wire _ gone.under_way
                ((unfold add_ack_header in queue.0), tt);
        })
  ]

  receives-IsGone :
      (q : Packet) (d : Connection)
      → In q b.wire
      → received a.connection q ≡ ok d
      → IsFar k q
      → IsGone k a
      → IsGone k (record a { connection = d })
  receives-IsGone q d there e far gone =
      let arrival = All-In (MayBe b.sent) q b.wire g.under_way there in
      let v = g.tracks.valid in
      let same = received-outgoing a.connection d q v (λ reliable. (arrival reliable).0) e in
      let m = a.connection.outgoing.reliable_packets in
      record {
        scheduled = gone.scheduled;
        queue =
            rw (same, ready_packets-process_acks a.connection q far.0)
              (All-append (IsOther k) a.connection.outgoing.ready_packets (resends q m) gone.queue (
                resends-IsOther k q m (λ j p found. (find-IsFiled m j p v.kept found).0) pos small
                  far));
        under_way = gone.under_way;
      }

  pub Acts-IsGone : {a1 : Side} → Acts b a a1 → IsPassed k b → IsGone k a → IsGone k a1
  unfolding side_takes pop_ready_incoming_packet pop_next_ready_packet
  Acts-IsGone (schedules p few) passed gone = schedules-IsGone p few gone
  Acts-IsGone transmits passed gone = transmits-IsGone gone
  Acts-IsGone (receives q d there e) passed gone =
      receives-IsGone q d there e (All-In (IsFar k) q b.wire passed.headers there) gone
  Acts-IsGone takes passed gone = record {
    scheduled = gone.scheduled;
    queue = gone.queue;
    under_way = gone.under_way;
  }
  Acts-IsGone (loses n) passed gone = record {
    scheduled = gone.scheduled;
    queue = gone.queue;
    under_way = All-remove (IsOther k) n a.wire gone.under_way;
  }
