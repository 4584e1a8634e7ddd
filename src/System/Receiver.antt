-- ===== src/System/Receiver.antt =====
-- What a side does keeps the flow of the packets that come to it.
use gio_net.Base.{
  ℕ, ◌≡◌, refl, sym, ap, ◌∙◌, Bool, true, false, arith, List, [], ◌∷◌, All, All-append, inl, inr,
  ◌==◌, Bool-cases, if◌then◌else◌, ok, ok_injective, append-nil,
}
use mathlib.Core.Path.{subst}
use gio_net.Packet.{Packet, is_reliable}
use gio_net.Connection.{
  get_index_for_next_packet, Connection, schedule, has_received_packet, received, add_ack_header,
  pop_ready_incoming_packet, pop_next_ready_packet,
}
use gio_net.Connection.Ids.{IsId}
use gio_net.Connection.Invariant.{IsValid, schedule-IsValid, pop_outgoing-IsValid}
use gio_net.Connection.Received.{received_reliable, received_unreliable}
use gio_net.Connection.Delivery.Tracks.{Tracks, arrives-Tracks, pops-Tracks}
use gio_net.System.{
  Side, Acts, schedules, transmits, receives, takes, loses, side_schedules, side_transmits,
  side_takes, In, remove,
}
use gio_net.System.Genuine.{IsGenuine, MayBe, All-weaken, All-In, All-remove}
use gio_net.System.Flows.{Flows, IsSound, IsSound-mono, add_ack_header-IsSound, Tracks-same}
use gio_net.System.Popped.{nothing, front, pop-Popped, contains-insert}

-- What has arrived stays.
abbrev pub Remembers : Connection → Connection → Type 0
Remembers c d = (id : ℕ) → has_received_packet c id ≡ true → has_received_packet d id ≡ true

pub Remembers-same :
    (c d : Connection) → d.incoming.reliable_packets ≡ c.incoming.reliable_packets → Remembers c d
unfolding has_received_packet
Remembers-same c d same id h = rw same h

pub IsSound-all :
    (c d : Connection) (ps : List Packet) → Remembers c d → All (IsSound c) ps → All (IsSound d) ps
IsSound-all c d ps more a = All-weaken (IsSound c) (IsSound d) (IsSound-mono c d more) ps a

-- A side that has forgotten nothing, with a history of its own and sound headers.
pub receiver-Flows :
    (b a a1 : Side)
    → Flows b a
    → Tracks (IsGenuine b.sent) 0 a1.connection a1.taken
    → Remembers a.connection a1.connection
    → All (IsSound a1.connection) a1.wire
    → Flows b a1
receiver-Flows b a a1 f t more sound = record {
  counted = f.counted;
  few = f.few;
  outgoing = f.outgoing;
  under_way = f.under_way;
  tracks = t;
  kept = λ id h k. elim (f.kept id h k) [ inl w ↦ inl w | inr r ↦ inr (more id r) ];
  headers = sound;
}

pub schedule-incoming : (c : Connection) (p : Packet) → (schedule c p).incoming ≡ c.incoming
unfolding schedule get_index_for_next_packet
schedule-incoming c p = ground arith

schedules-receiver : (b a : Side) (p : Packet) → Flows b a → Flows b (side_schedules p a)
unfolding side_schedules
schedules-receiver b a p f =
    let same = schedule-incoming a.connection p in
    let more =
      Remembers-same a.connection (schedule a.connection p) (ap (λ s. s.reliable_packets) same) in
    receiver-Flows b a (side_schedules p a) f
      (Tracks-same b.sent a.connection (schedule a.connection p) a.taken
        (schedule-IsValid p f.tracks.valid) same f.tracks)
      more (IsSound-all a.connection (schedule a.connection p) a.wire more f.headers)

transmits-receiver :
    (b a : Side) → Flows b a → All (IsSound a.connection) a.wire → Flows b (side_transmits a)
unfolding side_transmits
transmits-receiver b a f sound = elim (pop-Popped a.connection) [
  | nothing e now ↦
      rw now (receiver-Flows b a _ f f.tracks (λ id h. h) (rw (append-nil a.wire) sound))
  | front p ps e now ↦
      let c1 : Connection = record a.connection {
        outgoing = record a.connection.outgoing { ready_packets = ps };
      } in
      let valid : IsValid c1 = rw now at (pop_outgoing-IsValid f.tracks.valid) in
      let more = Remembers-same a.connection c1 refl in
      rw now (
        receiver-Flows b a _ f (Tracks-same b.sent a.connection c1 a.taken valid refl f.tracks) more
          (All-append (IsSound c1) a.wire (add_ack_header c1 p ∷ [])
            (IsSound-all a.connection c1 a.wire more sound)
            (add_ack_header-IsSound c1 p valid, tt)))
]

received-Remembers :
    (c d : Connection) (p : Packet)
    → IsValid c
    → (is_reliable p ≡ true → IsId p.id)
    → received c p ≡ ok d
    → Remembers c d
received-Remembers c d p v arrival e = elim (Bool-cases (is_reliable p)) [
  | inl reliable ↦
      let (d1, e1, a) = received_reliable c p v reliable (arrival reliable) in
      subst (Remembers c) (ok_injective (sym e1 ∙ e)) (λ id h.
        unfold has_received_packet in
        rw (a.delivers.same_map, contains-insert p.id id p c.incoming.reliable_packets)
          (kept_true (p.id == id) _ (unfold has_received_packet in h)))
  | inr plain ↦
      subst (Remembers c) (ok_injective (sym (received_unreliable c p plain) ∙ e))
        (Remembers-same c _ refl)
]
  where
    kept_true : (b r : Bool) → r ≡ true → (if b then true else r) ≡ true
    kept_true true r h = refl
    kept_true false r h = h

receives-receiver :
    (b a : Side) (p : Packet) (d : Connection)
    → Flows b a
    → All (IsSound a.connection) a.wire
    → In p b.wire
    → received a.connection p ≡ ok d
    → Flows b (record a { connection = d })
receives-receiver b a p d f sound here e =
    let arrival = All-In (MayBe b.sent) p b.wire f.under_way here in
    let (d1, e1, t) = arrives-Tracks (IsGenuine b.sent) 0 a.connection a.taken p f.tracks arrival in
    let more =
      received-Remembers a.connection d p f.tracks.valid (λ reliable. (arrival reliable).0) e in
    receiver-Flows b a (record a { connection = d }) f
      (subst (λ x. Tracks (IsGenuine b.sent) 0 x a.taken) (ok_injective (sym e1 ∙ e)) t) more
      (IsSound-all a.connection d a.wire more sound)

takes-receiver : (b a : Side) → Flows b a → Flows b (side_takes a)
unfolding side_takes
takes-receiver b a f =
    let more =
      Remembers-same a.connection (pop_ready_incoming_packet a.connection).1
        (unfold pop_ready_incoming_packet pop_next_ready_packet in ground arith) in
    receiver-Flows b a (side_takes a) f
      (pops-Tracks (IsGenuine b.sent) 0 a.connection a.taken f.tracks) more
      (IsSound-all a.connection _ a.wire more f.headers)

-- Whatever a side does.
pub Acts-receiver : {a b a1 : Side} → Acts b a a1 → Flows b a → Flows b a1
Acts-receiver {a} {b} (schedules p few) f = schedules-receiver b a p f
Acts-receiver {a} {b} transmits f = transmits-receiver b a f f.headers
Acts-receiver {a} {b} (receives p d here e) f = receives-receiver b a p d f f.headers here e
Acts-receiver {a} {b} takes f = takes-receiver b a f
Acts-receiver {a} {b} (loses n) f =
    receiver-Flows b a (record a { wire = remove n a.wire }) f f.tracks (λ id h. h)
      (All-remove (IsSound a.connection) n a.wire f.headers)
