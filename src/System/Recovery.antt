-- ===== src/System/Recovery.antt =====
-- A packet that is lost and not yet passed by more than four ids can come through.
use gio_net.Base.{
  ℕ, ◌+◌, ◌≡◌, ◌<◌, refl, sym, ap, ◌∙◌, true, false, arith, List, [], ◌∷◌, ◌++◌, length, inl, inr,
  Bool-cases, ok, ok_injective,
}
use mathlib.Core.Path.{subst}
use gio_net.Base.Map.{contains}
use gio_net.Address.{NetAddress}
use gio_net.Packet.{Packet, is_reliable, default_packet, has_flags}
use gio_net.Connection.{Connection, received, has_received_packet, add_ack_header}
use gio_net.Connection.Invariant.{IsValid}
use gio_net.Connection.Ids.{IsId}
use gio_net.Connection.Received.{received_reliable}
use gio_net.Connection.Schedule.{schedule_unreliable}
use gio_net.System.{
  System, Side, init, schedules, transmits, receives, side_schedules, side_transmits, Step,
  left_acts, right_acts, Reach, here, next, In,
}
use gio_net.System.Genuine.{MayBe, All-In}
use gio_net.System.Popped.{nothing, front, pop-Popped, contains-insert}
use gio_net.System.Stream.{Reach-IsSound, reach_received}
use gio_net.System.Resend.{Has, In-last, resends_lost}

Reach-cons : {s t u : System} → Step s t → Reach t u → Reach s u
Reach-cons step here = next here step
Reach-cons step (next reach last) = next (Reach-cons step reach) last

-- The left side sends its queue until the packet is under way.
transmits_until :
    (k : ℕ) (s : System) (ps : List Packet)
    → s.left.connection.outgoing.ready_packets ≡ ps
    → Has k ps
    → (t : System) × Reach s t × Has k t.left.wire × (t.right ≡ s.right)
transmits_until k s [] e has = absurd has.1
transmits_until k s (p ∷ ps) e has = elim (pop-Popped s.left.connection) [
  | nothing none_left now ↦ cc
  | front p1 ps1 some_left now ↦
      let c1 : Connection = record s.left.connection {
        outgoing = record s.left.connection.outgoing { ready_packets = ps1 };
      } in
      let t : System = record s { left = side_transmits s.left } in
      let step : Step s t = left_acts transmits in
      let tail : t.left.connection.outgoing.ready_packets ≡ ps =
        unfold side_transmits in rw now (tail_eq p p1 ps ps1 (sym e ∙ some_left)) in
      let on_wire : t.left.wire ≡ s.left.wire ++ (add_ack_header c1 p1 ∷ []) =
        unfold side_transmits in rw now refl in
      elim has.1 [
        | inl first ↦ (
          t,
          next here step,
          (
            add_ack_header c1 p1,
            rw on_wire (In-last (add_ack_header c1 p1) s.left.wire),
            (unfold add_ack_header is_reliable in
                subst (λ x. is_reliable x ≡ true)
                  (sym (head_eq p p1 ps ps1 (sym e ∙ some_left) ∙ first)) has.2),
            (unfold add_ack_header in
                ap (λ x. x.id) (head_eq p p1 ps ps1 (sym e ∙ some_left) ∙ first) ∙ has.3),
          ),
          refl,
        )
        | inr later ↦
            let (u, reach, there, same) =
              transmits_until k t ps tail (has.0, later, has.2, has.3) in
            (u, Reach-cons step reach, there, same)
      ]
]
  where
    tail_eq : (p p1 : Packet) (ps ps1 : List Packet) → p ∷ ps ≡ p1 ∷ ps1 → ps1 ≡ ps
    tail_eq p p1 ps ps1 h = cc

    head_eq : (p p1 : Packet) (ps ps1 : List Packet) → p ∷ ps ≡ p1 ∷ ps1 → p1 ≡ p
    head_eq p p1 ps ps1 h = cc

-- The right side schedules an unreliable packet, and sends the front of its queue with a header.
reports_to :
    (s : System)
    → (t : System) × (p : Packet) × (c : Connection) × Reach s t
      × In (add_ack_header c p) t.right.wire
      × (c.incoming ≡ s.right.connection.incoming)
      × (c.current_ack_id ≡ s.right.connection.current_ack_id)
      × (t.left ≡ s.left)
      × (t.right.connection.incoming ≡ s.right.connection.incoming)
reports_to s = elim (pop-Popped b1.connection) [
  | nothing none_left now ↦ absurd (
      subst (In default_packet) (sym queue ∙ none_left)
        (In-last default_packet b.connection.outgoing.ready_packets))
  | front p ps some_left now ↦
      let c1 : Connection = record b1.connection {
        outgoing = record b1.connection.outgoing { ready_packets = ps };
      } in
      let on_wire : (side_transmits b1).wire ≡ b1.wire ++ (add_ack_header c1 p ∷ []) =
        unfold side_transmits in rw now refl in
      let popped : (side_transmits b1).connection.incoming ≡ b1.connection.incoming =
        unfold side_transmits in rw now refl in
      (
        record s { right = side_transmits b1 },
        p,
        c1,
        next
            (next here
              (right_acts (schedules default_packet (λ reliable. absurd_reliable reliable))))
            (right_acts transmits),
        rw on_wire (In-last (add_ack_header c1 p) b1.wire),
        ap (λ (c : Connection). c.incoming) scheduled,
        ap (λ (c : Connection). c.current_ack_id) scheduled,
        refl,
        popped ∙ ap (λ (c : Connection). c.incoming) scheduled,
      )
]
  where
    b : Side
    b = s.right

    b1 : Side
    b1 = side_schedules default_packet b

    plain : is_reliable default_packet ≡ false
    plain = unfold is_reliable has_flags in refl

    absurd_reliable : is_reliable default_packet ≡ true → length b.sent < 65534
    absurd_reliable h = let e = plain in cc

    scheduled : b1.connection ≡ record b.connection {
      outgoing = record b.connection.outgoing {
        ready_packets = b.connection.outgoing.ready_packets ++ (default_packet ∷ []);
      };
    }
    scheduled = unfold side_schedules in schedule_unreliable b.connection default_packet plain

    queue :
        b1.connection.outgoing.ready_packets
        ≡ b.connection.outgoing.ready_packets ++ (default_packet ∷ [])
    queue = ap (λ (c : Connection). c.outgoing.ready_packets) scheduled

Reach-trans : {s t u : System} → Reach s t → Reach t u → Reach s u
Reach-trans r here = r
Reach-trans r (next reach step) = next (Reach-trans r reach) step

-- A reliable packet that came in has been received.
received_arrived :
    (c d : Connection) (p : Packet)
    → IsValid c
    → is_reliable p ≡ true
    → IsId p.id
    → received c p ≡ ok d
    → has_received_packet d p.id ≡ true
unfolding has_received_packet
received_arrived c d p v reliable id e =
    let (d1, e1, a) = received_reliable c p v reliable id in
    let same = ok_injective (sym e1 ∙ e) in
    subst (λ x. contains p.id x.incoming.reliable_packets ≡ true) same
      (rw (a.delivers.same_map, contains-insert p.id p.id p c.incoming.reliable_packets)
        (ground arith))

-- From every state that two new connections can reach: if a reliable packet of the left side
-- still waits for its ack, and the right side's ack id is one to four ids ahead of it, then the
-- two can go on so that the packet arrives, however many of its copies are lost.
pub recovers :
    (k n : ℕ) {l r : NetAddress} {s : System}
    → n < 4
    → Reach (init l r) s
    → contains k s.left.connection.outgoing.reliable_packets ≡ true
    → s.right.connection.current_ack_id ≡ k + n + 1
    → (t : System) × Reach s t × (has_received_packet t.right.connection k ≡ true)
recovers k n {s} lt start waits ack = elim (Bool-cases (has_received_packet s.right.connection k)) [
  | inl got ↦ (s, here, got)
  | inr lacking ↦
      let (t1, p, c, reach1, there, same_incoming, same_ack, same_left, right_incoming) =
        reports_to s in
      let i1 = Reach-IsSound (Reach-trans start reach1) in
      let (d, e) = (reach_received (add_ack_header c p) (Reach-trans start reach1)).1 there in
      let t2 : System = record t1 { left = record t1.left { connection = d } } in
      let reach2 : Reach s t2 = next reach1 (left_acts (receives (add_ack_header c p) d there e)) in
      let word = (Reach-IsSound start).rightward.tracks.valid.ack_in_range in
      let c_lacks : has_received_packet c k ≡ false =
        unfold has_received_packet in rw same_incoming (unfold has_received_packet in lacking) in
      let queued : Has k t2.left.connection.outgoing.ready_packets =
        resends_lost k n t1.left t1.right c d p i1.rightward i1.leftward lt there e (same_ack ∙ ack)
          (rw same_ack word) c_lacks (rw same_left waits) in
      let (t3, reach3, (p3, there3, reliable3, id3), same_right) =
        transmits_until k t2 _ refl queued in
      let reach_t3 = Reach-trans reach2 reach3 in
      let i3 = Reach-IsSound (Reach-trans start reach_t3) in
      let (d3, e3) = (reach_received p3 (Reach-trans start reach_t3)).0 there3 in
      let arrival = All-In (MayBe t3.left.sent) p3 t3.left.wire i3.rightward.under_way there3 in
      (
        record t3 { right = record t3.right { connection = d3 } },
        next reach_t3 (right_acts (receives p3 d3 there3 e3)),
        rw id3 at (
            received_arrived t3.right.connection d3 p3 i3.rightward.tracks.valid reliable3
              (arrival reliable3).0 e3),
      )
]
