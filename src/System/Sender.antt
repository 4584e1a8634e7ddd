-- ===== src/System/Sender.antt =====
-- What a side does keeps the flow of the packets that it sends.
use gio_net.System.Popped.{nothing, front, pop-Popped, received-outgoing, contains-insert}
use gio_net.Base.{
  ℕ, ◌+◌, ◌-◌, ◌≡◌, ◌<◌, ◌≤◌, refl, ◌∙◌, true, arith, List, [], ◌∷◌, ◌++◌, All, All-append,
  append-nil, length, length-append, ◌⊎◌, inl, inr, ◌==◌, Bool-cases, if◌then◌else◌, ok,
}
use gio_net.Base.Map.{Map, contains}
use gio_net.Buffer.{Buffer}
use gio_net.Packet.{Packet, is_reliable}
use gio_net.Connection.{
  Connection, schedule, has_received_packet, received, process_acks, add_ack_header,
  pop_next_ready_packet, pop_ready_incoming_packet, next_expected,
}
use gio_net.Connection.Acks.{acknowledges}
use gio_net.Connection.Acks.Process.{find-process_acks, process_acks_frame}
use gio_net.Connection.Ids.{next_expected-IsId, next_expected_lem}
use gio_net.Connection.Schedule.{schedule_reliable, schedule_unreliable}
use gio_net.Connection.Delivery.Tracks.{All-insert}
use gio_net.System.{
  Side, Acts, schedules, transmits, receives, takes, loses, side_schedules, side_transmits,
  side_takes, In, remove, limit,
}
use gio_net.System.Genuine.{
  MayBe, MayBe-append, OfEntry, All-weaken, All-In, All-remove, get_elem?-last,
  process_acks-Outgoing,
}
use gio_net.System.Flows.{Flows, IsSound, IsKept, Tracks-append}

weaken_waiting :
    (sent more : List Buffer) (m : Map Packet)
    → All (OfEntry (MayBe sent)) m
    → All (OfEntry (MayBe (sent ++ more))) m
weaken_waiting sent more m a =
    All-weaken (OfEntry (MayBe sent)) (OfEntry (MayBe (sent ++ more)))
      (λ e h. MayBe-append sent more e.1 h) m a

weaken_all :
    (sent more : List Buffer) (ps : List Packet)
    → All (MayBe sent) ps
    → All (MayBe (sent ++ more)) ps
weaken_all sent more ps a =
    All-weaken (MayBe sent) (MayBe (sent ++ more)) (λ p h. MayBe-append sent more p h) ps a

kept_insert :
    (k id n : ℕ) (a b : Connection)
    → k ≡ n + 1
    → 0 < id
    → id ≤ n + 1
    → (id ≤ n → IsKept a b id)
    → ((if k == id then true else contains id a.outgoing.reliable_packets) ≡ true)
      ⊎ (has_received_packet b id ≡ true)
kept_insert k id n a b now h le old = elim (Bool-cases (k == id)) [
  | inl same ↦ inl (rw same refl)
  | inr other ↦ rw other (old (ground arith))
]

-- A reliable packet gets the next id, and waits for its ack.
schedules_reliable-Flows :
    (a b : Side) (p : Packet)
    → Flows a b
    → length a.sent < limit
    → is_reliable p ≡ true
    → Flows (record a { connection = schedule a.connection p; sent = a.sent ++ (p.payload ∷ []) }) b
schedules_reliable-Flows a b p f few reliable =
    let seq = a.connection.outgoing.sequence_number in
    let more = p.payload ∷ [] in
    let small : seq < 65536 = omega (arith, f.counted) in
    let next = next_expected seq in
    let q : Packet = record p { id = next } in
    let now : next ≡ length a.sent + 1 = omega (arith, next_expected_lem seq small, f.counted) in
    let at_end : next - 1 ≡ length a.sent = omega (arith, now) in
    let grown : length (a.sent ++ more) ≡ length a.sent + 1 =
      omega (arith, length-append a.sent more) in
    let fits : MayBe (a.sent ++ more) q =
      λ _. (next_expected-IsId seq, rw at_end (get_elem?-last a.sent p.payload)) in
    rw (schedule_reliable a.connection p small reliable) (record {
      counted = omega (arith, now, grown);
      few = omega (arith, grown);
      outgoing = record {
        waiting =
            All-insert (MayBe (a.sent ++ more)) next q a.connection.outgoing.reliable_packets fits (
              weaken_waiting a.sent more a.connection.outgoing.reliable_packets f.outgoing.waiting);
        queue =
            All-append (MayBe (a.sent ++ more)) a.connection.outgoing.ready_packets (q ∷ [])
              (weaken_all a.sent more a.connection.outgoing.ready_packets f.outgoing.queue)
              (fits, tt);
      };
      under_way = weaken_all a.sent more a.wire f.under_way;
      tracks = Tracks-append a.sent more b.connection b.taken f.tracks;
      kept = λ id h k. rw (contains-insert next id q a.connection.outgoing.reliable_packets) (
          kept_insert next id (length a.sent) a.connection b.connection now h
            (omega (arith, grown, k)) (f.kept id h));
      headers = f.headers;
    })

schedules-Flows :
    (a b : Side) (p : Packet)
    → Flows a b
    → (is_reliable p ≡ true → length a.sent < limit)
    → Flows (side_schedules p a) b
unfolding side_schedules
schedules-Flows a b p f few = elim (Bool-cases (is_reliable p)) [
  | inl reliable ↦ rw reliable (schedules_reliable-Flows a b p f (few reliable) reliable)
  | inr plain ↦
      rw (plain, schedule_unreliable a.connection p plain)
        (record {
          counted = f.counted;
          few = f.few;
          outgoing = record {
            waiting = f.outgoing.waiting;
            queue =
                All-append (MayBe a.sent) a.connection.outgoing.ready_packets (p ∷ [])
                  f.outgoing.queue ((λ reliable. cc), tt);
          };
          under_way = f.under_way;
          tracks = f.tracks;
          kept = f.kept;
          headers = f.headers;
        })
]

transmits-Flows : (a b : Side) → Flows a b → Flows (side_transmits a) b
unfolding side_transmits is_reliable
transmits-Flows a b f = elim (pop-Popped a.connection) [
  | nothing e now ↦ rw now (record {
    counted = f.counted;
    few = f.few;
    outgoing = f.outgoing;
    under_way = rw (append-nil a.wire) f.under_way;
    tracks = f.tracks;
    kept = f.kept;
    headers = f.headers;
  })
  | front p ps e now ↦
      let queue = rw e at f.outgoing.queue in
      rw now (record {
        counted = f.counted;
        few = f.few;
        outgoing = record { waiting = f.outgoing.waiting; queue = queue.1 };
        under_way =
            All-append (MayBe a.sent) a.wire _ f.under_way ((unfold add_ack_header in queue.0), tt);
        tracks = f.tracks;
        kept = f.kept;
        headers = f.headers;
      })
]

receives-Flows :
    (a b : Side) (p : Packet) (d : Connection)
    → Flows a b
    → Flows b a
    → In p b.wire
    → received a.connection p ≡ ok d
    → Flows (record a { connection = d }) b
receives-Flows a b p d f g here e =
    let arrival = All-In (MayBe b.sent) p b.wire g.under_way here in
    let same =
      received-outgoing a.connection d p g.tracks.valid (λ reliable. (arrival reliable).0) e in
    let acked = process_acks-Outgoing (MayBe a.sent) a.connection p f.outgoing in
    let sound = All-In (IsSound b.connection) p b.wire f.headers here in
    record {
      counted = rw same ((process_acks_frame a.connection p).same_sequence ∙ f.counted);
      few = f.few;
      outgoing = record { waiting = rw same acked.waiting; queue = rw same acked.queue };
      under_way = f.under_way;
      tracks = f.tracks;
      kept = λ id h k. rw same (kept_acks id (sound id) h (f.kept id h k));
      headers = f.headers;
    }
  where
    kept_acks :
        (id : ℕ)
        → (acknowledges p id ≡ true → (id ≡ 0) ⊎ (has_received_packet b.connection id ≡ true))
        → 0 < id
        → IsKept a.connection b.connection id
        → IsKept (process_acks a.connection p) b.connection id
    kept_acks id sound h k = elim (Bool-cases (acknowledges p id)) [
      | inl yes' ↦ elim (sound yes') [ inl z ↦ absurd (omega (arith, z, h)) | inr r ↦ inr r ]
      | inr no' ↦ elim k [
        | inl w ↦ inl (
            unfold contains in rw (find-process_acks a.connection p id, no') (unfold contains in w))
        | inr r ↦ inr r
      ]
    ]

takes-Flows : (a b : Side) → Flows a b → Flows (side_takes a) b
unfolding side_takes pop_ready_incoming_packet pop_next_ready_packet
takes-Flows a b f = record {
  counted = f.counted;
  few = f.few;
  outgoing = record { waiting = f.outgoing.waiting; queue = f.outgoing.queue };
  under_way = f.under_way;
  tracks = f.tracks;
  kept = f.kept;
  headers = f.headers;
}

loses-Flows : (a b : Side) (n : ℕ) → Flows a b → Flows (record a { wire = remove n a.wire }) b
loses-Flows a b n f = record {
  counted = f.counted;
  few = f.few;
  outgoing = record { waiting = f.outgoing.waiting; queue = f.outgoing.queue };
  under_way = All-remove (MayBe a.sent) n a.wire f.under_way;
  tracks = f.tracks;
  kept = f.kept;
  headers = f.headers;
}

-- Whatever a side does.
pub Acts-sender : {a b a1 : Side} → Acts b a a1 → Flows a b → Flows b a → Flows a1 b
Acts-sender {a} {b} (schedules p few) f g = schedules-Flows a b p f few
Acts-sender {a} {b} transmits f g = transmits-Flows a b f
Acts-sender {a} {b} (receives p d here e) f g = receives-Flows a b p d f g here e
Acts-sender {a} {b} takes f g = takes-Flows a b f
Acts-sender {a} {b} (loses n) f g = loses-Flows a b n f
