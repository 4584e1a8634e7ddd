-- ===== src/Interleaving/Acking.antt =====
-- What the thread that listens does with the acks of a packet, one lock of the outgoing stream at
-- a time.
use gio_net.Base.{ℕ, zero, suc, ◌+◌, ◌≡◌, ◌<◌, refl, ap, true, ◌&&◌, arith, ◌⊎◌, inl, inr, ◌==◌}
use mathlib.Core.Path.{subst}
use gio_net.Base.Map.{contains, find}
use gio_net.Packet.{Packet}
use gio_net.Connection.{Connection, has_received_packet, packet_acked, process_bits, ack_count}
use gio_net.Connection.Acks.{behind, test_bit, acknowledges}
use gio_net.Connection.Acks.Process.{
  SameButWaiting, packet_acked_frame, process_bits_frame, find-packet_acked, find-process_bit,
}
use gio_net.Connection.Invariant.{IsValid, packet_acked-IsValid, process_bits-IsValid}
use gio_net.System.{Side, In}
use gio_net.System.Genuine.{MayBe, Outgoing, All-In, acked-Outgoing, process_bits-Outgoing}
use gio_net.System.Flows.{Flows, IsSound, IsKept}
use gio_net.Interleaving.{
  Host, Listener, free, locked, acking, with_connection, id_after, host_acks, host_acks_bit,
}
use gio_net.Interleaving.Settled.{settled, IsFiling, Sending, IsSettled, Grows, Sending-Grows}
use gio_net.Interleaving.User.{moved, same-Grows}
use gio_net.Interleaving.Sending.{sends-Flows, hears-Flows}

-- A host whose listener is known to be at some place.
pub listener_at :
    {a b : Host} {l : Listener}
    → a.listener ≡ l
    → IsSettled a b
    → IsSettled (record a { listener = l }) b
listener_at {a} {b} e i = subst (λ k. IsSettled (record a { listener = k }) b) e i

-- Nothing was about to be filed, and so the thread that sends has lost nothing.
pub idle_sending :
    (a : Host) (l l1 : Listener) (s : Side)
    → ((id : ℕ) → IsFiling l id → ⊥)
    → Grows a.side s
    → Sending l a.side.sent a.sender a.side.connection
    → Sending l1 s.sent a.sender s.connection
idle_sending a l l1 s idle g h =
    Sending-Grows l l1 a.sender a.side s g (λ id w. absurd (idle id w)) h

pub locks-IsSettled :
    (a b : Host) (p : Packet)
    → IsSettled a b
    → a.listener ≡ free
    → In p b.side.wire
    → IsSettled (record a { listener = locked p }) b
unfolding has_received_packet
locks-IsSettled a b p i e there =
    let j = listener_at e i in
    let g = same-Grows a.side a.side refl refl in
    moved (record a { listener = free }) (record a { listener = locked p }) b j j.outward j.inward g
      (record {
        listening = (
          All-In (MayBe b.side.sent) p b.side.wire j.inward.under_way there,
          All-In (IsSound (settled b).connection) p b.side.wire j.outward.headers there,
        );
        sending = idle_sending a free (locked p) a.side (λ id w. w) g j.own.sending;
      })

-- The packets that still wait are those that waited, less one that the header acknowledges.
abbrev AcksOnly : Packet → Connection → Connection → Type 0
AcksOnly p c d =
    (id : ℕ)
    → (find id d.outgoing.reliable_packets ≡ find id c.outgoing.reliable_packets)
      ⊎ (acknowledges p id ≡ true)

-- A change of the outgoing stream that a header of the other side justifies.
record IsAcked (p : Packet) (s : Side) (d : Connection) : Type 0 where
  frame : SameButWaiting s.connection d
  valid : IsValid d
  outgoing : Outgoing (MayBe s.sent) d
  only : AcksOnly p s.connection d

acked-IsKept :
    (p : Packet) (c d t : Connection)
    → IsSound t p
    → AcksOnly p c d
    → (id : ℕ) → 0 < id
    → IsKept c t id
    → IsKept d t id
unfolding contains
acked-IsKept p c d t sound only id h k = elim (only id) [
  | inl same ↦ rw same k
  | inr acked ↦ elim (sound id acked) [ inl z ↦ absurd (omega (arith, z, h)) | inr r ↦ inr r ]
]

acked-Flows :
    (p : Packet) (s t : Side) (d : Connection)
    → Flows s t
    → Flows t s
    → IsSound t.connection p
    → IsAcked p s d
    → Flows (with_connection d s) t × Flows t (with_connection d s)
acked-Flows p s t d f g sound h = (
  sends-Flows s t d f h.frame.same_sequence h.outgoing
      (acked-IsKept p s.connection d t.connection sound h.only),
  hears-Flows s t d g h.valid h.frame.same_incoming,
)

one-IsAcked :
    (p : Packet) (s : Side)
    → IsValid s.connection
    → Outgoing (MayBe s.sent) s.connection
    → IsAcked p s (packet_acked p.ack_id s.connection)
one-IsAcked p s v o = record {
  frame = packet_acked_frame p.ack_id s.connection;
  valid = packet_acked-IsValid p.ack_id v;
  outgoing = acked-Outgoing (MayBe s.sent) p.ack_id s.connection o;
  only = λ id. ground (arith, find-packet_acked p.ack_id id s.connection);
}

id_after-behind : (i id : ℕ) → i < ack_count → behind 1 (id_after i id) ≡ behind (i + 1) id
id_after-behind zero id h = omega arith
id_after-behind (suc i) id h =
    let before : id_after (suc i) id ≡ behind (i + 1) id = id_after-behind i id (omega arith) in
    omega (arith, before)

-- The bit of a round is that of an id that the header stands for.
bit-acknowledges :
    (p : Packet) (i id : ℕ)
    → i < ack_count
    → test_bit i p.ack_bitset && behind 1 (id_after i p.ack_id) == id ≡ true
    → acknowledges p id ≡ true
bit-acknowledges p i id h on = let now = rw (id_after-behind i p.ack_id h) at on in ground arith

bit-IsAcked :
    (p : Packet) (i : ℕ) (s : Side)
    → i < ack_count
    → IsValid s.connection
    → Outgoing (MayBe s.sent) s.connection
    → IsAcked p s (process_bits 1 i p.ack_bitset (id_after i p.ack_id) s.connection)
bit-IsAcked p i s h v o =
    let from = id_after i p.ack_id in
    record {
      frame = process_bits_frame 1 i p.ack_bitset from s.connection;
      valid = process_bits-IsValid 1 i p.ack_bitset from v;
      outgoing = process_bits-Outgoing (MayBe s.sent) 1 i p.ack_bitset from s.connection o;
      only = λ id.
          ground (
            arith,
            find-process_bit i p.ack_bitset from id s.connection,
            bit-acknowledges p i id h,
          );
    }

acked-Grows :
    (p : Packet) (s : Side) (d : Connection) → IsAcked p s d → Grows s (with_connection d s)
acked-Grows p s d h =
    same-Grows s (with_connection d s) refl (ap (λ x. x.reliable_packets) h.frame.same_incoming)

pub acks-IsSettled :
    (a b : Host) (p : Packet) → IsSettled a b → a.listener ≡ locked p → IsSettled (host_acks p a) b
unfolding host_acks has_received_packet
acks-IsSettled a b p i e =
    let j = listener_at e i in
    let d = packet_acked p.ack_id a.side.connection in
    let h = one-IsAcked p a.side j.inward.tracks.valid j.outward.outgoing in
    let g = acked-Grows p a.side d h in
    let flows = acked-Flows p a.side (settled b) d j.outward j.inward j.own.listening.1 h in
    moved (record a { listener = locked p }) (host_acks p a) b j flows.0 flows.1 g
      (record {
        listening = j.own.listening;
        sending =
            idle_sending a (locked p) (acking p 0) (with_connection d a.side) (λ id w. w) g
              j.own.sending;
      })

pub acks_bit-IsSettled :
    (a b : Host) (p : Packet) (n : ℕ)
    → IsSettled a b
    → a.listener ≡ acking p n
    → n < ack_count
    → IsSettled (host_acks_bit p n a) b
unfolding host_acks_bit has_received_packet
acks_bit-IsSettled a b p n i e lt =
    let j = listener_at e i in
    let d = process_bits 1 n p.ack_bitset (id_after n p.ack_id) a.side.connection in
    let h = bit-IsAcked p n a.side lt j.inward.tracks.valid j.outward.outgoing in
    let g = acked-Grows p a.side d h in
    let flows = acked-Flows p a.side (settled b) d j.outward j.inward j.own.listening.1 h in
    moved (record a { listener = acking p n }) (host_acks_bit p n a) b j flows.0 flows.1 g
      (record {
        listening = j.own.listening;
        sending =
            idle_sending a (acking p n) (acking p (suc n)) (with_connection d a.side) (λ id w. w) g
              j.own.sending;
      })
