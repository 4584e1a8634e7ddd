-- ===== src/Interleaving/Hearing.antt =====
-- The thread that listens brings its call of `Received` to an end, from wherever it is.
use gio_net.Base.{
  ℕ, ◌-◌, zero, suc, ◌+◌, ◌≡◌, refl, ◌∙◌, ap, true, false, List, [], ◌∷◌, ◌++◌, arith, inl, inr,
  Bool-cases,
}
use gio_net.Packet.{Packet, is_reliable}
use gio_net.Connection.{has_received_packet, ack_count, update_ack_id}
use gio_net.Connection.Acks.Process.{packet_acked_frame, process_bits_frame}
use gio_net.Interleaving.{
  Host, Listener, free, locked, acking, noted, Moves, acks, acks_bit, notes, files, queues,
  host_acks, host_acks_bit, id_after,
}
use gio_net.Interleaving.Settled.{IsSettled}
use gio_net.Interleaving.Acking.{listener_at}
use gio_net.Interleaving.Noting.{note_packet_lem}
use gio_net.Interleaving.Filing.{file_packet_lem, delivered_self}
use gio_net.Interleaving.Stream.{Moves-IsSettled}
use gio_net.Interleaving.Runs.{Runs, stays, moves, ListenerWithin}

-- The packets that wait for the user of a side.
abbrev pub waiting : Host → List Packet
waiting a = a.side.connection.incoming.ready_packets

-- The thread that listens is through with a packet, which has arrived if it is reliable and is
-- the last one that waits for the user if it is not, and the thread that sends is where it was.
pub record IsHeard (b a a1 : Host) (p : Packet) : Type 0 where
  pub run : Runs b a a1
  pub idle : a1.listener ≡ free
  pub same_sender : a1.sender ≡ a.sender
  pub same_wire : a1.side.wire ≡ a.side.wire
  pub arrived : is_reliable p ≡ true → has_received_packet a1.side.connection p.id ≡ true
  pub queued : is_reliable p ≡ false → waiting a1 ≡ waiting a ++ (p ∷ [])

moved-IsHeard :
    {b a a1 a2 : Host} {p : Packet}
    → Moves b a a1
    → a1.sender ≡ a.sender
    → a1.side.wire ≡ a.side.wire
    → waiting a1 ≡ waiting a
    → IsHeard b a1 a2 p
    → IsHeard b a a2 p
moved-IsHeard {p = p} m same_sender same_wire same_waiting h = record {
  run = moves m h.run;
  idle = h.idle;
  same_sender = h.same_sender ∙ same_sender;
  same_wire = h.same_wire ∙ same_wire;
  arrived = h.arrived;
  queued = λ plain. h.queued plain ∙ ap (λ ps. ps ++ (p ∷ [])) same_waiting;
}

hears_noted :
    (a b : Host) (p : Packet)
    → IsSettled a b
    → a.listener ≡ noted p
    → (a1 : Host) × IsHeard b a a1 p
hears_noted a b p i e =
    let j = listener_at e i in
    let (t, now, delivers) =
      file_packet_lem p a.side.connection j.inward.tracks.valid.in_sequence
        j.own.listening.ack_id in
    (
      _,
      record {
        run = moves (files p _ e now) stays;
        idle = refl;
        same_sender = refl;
        same_wire = refl;
        arrived = λ _. delivered_self p a.side.connection t delivers;
        queued = λ plain. let reliable = j.own.listening.reliable in cc;
      },
    )

hears_acked :
    (a b : Host) (p : Packet)
    → IsSettled a b
    → a.listener ≡ acking p ack_count
    → (a1 : Host) × IsHeard b a a1 p
unfolding update_ack_id
hears_acked a b p i e = elim (Bool-cases (is_reliable p)) [
  | inl reliable ↦
      let j = listener_at e i in
      let success = note_packet_lem p a.side.connection (j.own.listening.0 reliable).0 in
      let m : Moves b a _ = notes p _ e reliable success in
      let (a1, h) = hears_noted _ b p (Moves-IsSettled m i) refl in
      (a1, moved-IsHeard m refl refl refl h)
  | inr plain ↦ (
    _,
    record {
      run = moves (queues p e plain) stays;
      idle = refl;
      same_sender = refl;
      same_wire = refl;
      arrived = λ reliable. cc;
      queued = λ _. refl;
    },
  )
]

hears_acking :
    (rounds n : ℕ) (a b : Host) (p : Packet)
    → n + rounds ≡ ack_count
    → IsSettled a b
    → a.listener ≡ acking p n
    → (a1 : Host) × IsHeard b a a1 p
unfolding host_acks_bit
hears_acking zero n a b p left i e =
    let last : n ≡ ack_count = omega (arith, left) in hears_acked a b p i (rw last at e)
hears_acking (suc rounds) n a b p left i e =
    let m = acks_bit p n e (omega (arith, left)) in
    let (a1, h) =
      hears_acking rounds (suc n) (host_acks_bit p n a) b p (omega (arith, left))
        (Moves-IsSettled m i) refl in
    (
      a1,
      moved-IsHeard m refl refl
          (ap (λ s. s.ready_packets)
            (process_bits_frame 1 n p.ack_bitset (id_after n p.ack_id)
              a.side.connection).same_incoming)
          h,
    )

-- What comes of the packet that a thread of `a` has at hand.
abbrev pub Heard : Packet → Host → Host → Type 0
Heard p a a1 =
    (is_reliable p ≡ true → has_received_packet a1.side.connection p.id ≡ true)
    × (is_reliable p ≡ false → waiting a1 ≡ waiting a ++ (p ∷ []))

abbrev pub Arrives : Listener → Host → Host → Type 0
Arrives free a a1 = Unit
Arrives (locked p) a a1 = Heard p a a1
Arrives (acking p n) a a1 = Heard p a a1
Arrives (noted p) a a1 = Heard p a a1

-- From any place within a call.
pub hears :
    (a b : Host) (l : Listener)
    → IsSettled a b
    → ListenerWithin l
    → a.listener ≡ l
    → (a1 : Host) × Runs b a a1
      × (a1.listener ≡ free)
      × (a1.sender ≡ a.sender)
      × (a1.side.wire ≡ a.side.wire)
      × Arrives l a a1
unfolding host_acks
hears a b free i within e = (a, stays, e, refl, refl, tt)
hears a b (locked p) i within e =
    let m = acks p e in
    let (a1, h) = hears_acking ack_count 0 (host_acks p a) b p refl (Moves-IsSettled m i) refl in
    let g =
      moved-IsHeard m refl refl
        (ap (λ s. s.ready_packets) (packet_acked_frame p.ack_id a.side.connection).same_incoming)
        h in
    (a1, g.run, g.idle, g.same_sender, g.same_wire, (g.arrived, g.queued))
hears a b (acking p n) i within e =
    let (a1, g) = hears_acking (ack_count - n) n a b p (omega (arith, within)) i e in
    (a1, g.run, g.idle, g.same_sender, g.same_wire, (g.arrived, g.queued))
hears a b (noted p) i within e =
    let (a1, g) = hears_noted a b p i e in
    (a1, g.run, g.idle, g.same_sender, g.same_wire, (g.arrived, g.queued))
