-- ===== src/Interleaving/Sending.antt =====
-- What the thread that sends does, a step at a time.
use gio_net.Base.{
  ap, sym, Option, ◌++◌, ◌⊎◌, ℕ, zero, suc, ◌≡◌, ◌<◌, refl, ◌∙◌, arith, true, List, [], ◌∷◌,
  All-append, inl, inr,
}
use mathlib.Core.Path.{subst}
use gio_net.Buffer.{Buffer}
use gio_net.Packet.{Packet, is_reliable}
use gio_net.Connection.{
  PacketStream, pop_from, Connection, has_received_packet, pop_next_ready_packet, ack_count,
}
use gio_net.Connection.Invariant.{IsValid, pop_outgoing-IsValid}
use gio_net.System.{Side}
use gio_net.System.Genuine.{MayBe, Outgoing}
use gio_net.System.Flows.{Flows, IsSound, IsKept, Tracks-same}
use gio_net.System.Popped.{nothing, front, pop-Popped}
use gio_net.System.Receiver.{Remembers-same, IsSound-all, receiver-Flows}
use gio_net.Interleaving.{
  Host, Listener, free, locked, acking, noted, Sender, resting, popped, checking, sender_of,
  with_connection, host_pops, host_loads, host_checks, host_sends,
}
use gio_net.Interleaving.Settled.{
  settled, settled_ack, Listening, IsFiling, Sending, IsSettled, Listening-same,
}
use gio_net.Interleaving.Bits.{IsSound-bare, ack_bits-IsSound}
use gio_net.Interleaving.User.{moved, same-Grows}

-- The outgoing stream of a side changes, and what it has sent does not.
pub sends-Flows :
    (a b : Side) (c : Connection)
    → Flows a b
    → c.outgoing.sequence_number ≡ a.connection.outgoing.sequence_number
    → Outgoing (MayBe a.sent) c
    → ((id : ℕ) → 0 < id → IsKept a.connection b.connection id → IsKept c b.connection id)
    → Flows (with_connection c a) b
sends-Flows a b c f same out more = record {
  counted = same ∙ f.counted;
  few = f.few;
  outgoing = out;
  under_way = f.under_way;
  tracks = f.tracks;
  kept = λ id h k. more id h (f.kept id h k);
  headers = f.headers;
}

-- The incoming stream stays, so what comes in does.
pub hears-Flows :
    (a b : Side) (c : Connection)
    → Flows b a
    → IsValid c
    → c.incoming ≡ a.connection.incoming
    → Flows b (with_connection c a)
hears-Flows a b c f valid same =
    let more = Remembers-same a.connection c (ap (λ s. s.reliable_packets) same) in
    receiver-Flows b a (with_connection c a) f
      (Tracks-same b.sent a.connection c a.taken valid same f.tracks) more
      (IsSound-all a.connection c a.wire more f.headers)

-- Only the thread that sends has moved.
sender_moved :
    (a b : Host) (s : Sender)
    → IsSettled a b
    → Sending a.listener a.side.sent s a.side.connection
    → IsSettled (record a { sender = s }) b
sender_moved a b s i h =
    moved a (record a { sender = s }) b i i.outward i.inward (same-Grows a.side a.side refl refl)
      (record { listening = i.own.listening; sending = h })

abbrev sender_facts :
    (a b : Host) (s : Sender)
    → IsSettled a b
    → a.sender ≡ s
    → Sending a.listener a.side.sent s a.side.connection
sender_facts a b s i e =
    subst (λ t. Sending a.listener a.side.sent t a.side.connection) e i.own.sending

-- The ack id that is loaded is that of a packet that has arrived or that is about to be filed.
loaded :
    (l : Listener) (sent : List Buffer) (b c : Connection)
    → Listening sent b l c
    → (settled_ack l c.current_ack_id ≡ 0)
      ⊎ (has_received_packet c (settled_ack l c.current_ack_id) ≡ true)
    → (c.current_ack_id ≡ 0)
      ⊎ (IsFiling l c.current_ack_id ⊎ (has_received_packet c c.current_ack_id ≡ true))
loaded free sent b c h v = elim v [ inl z ↦ inl z | inr r ↦ inr (inr r) ]
loaded (locked p) sent b c h v = elim v [ inl z ↦ inl z | inr r ↦ inr (inr r) ]
loaded (acking p i) sent b c h v = elim v [ inl z ↦ inl z | inr r ↦ inr (inr r) ]
loaded (noted p) sent b c h v = inr h.held

pub loads-IsSettled :
    (a b : Host) (p : Packet) → IsSettled a b → a.sender ≡ popped p → IsSettled (host_loads p a) b
unfolding host_loads is_reliable has_received_packet
loads-IsSettled a b p i e = sender_moved a b _ i (
  sender_facts a b (popped p) i e,
  refl,
  loaded a.listener b.side.sent b.side.connection a.side.connection i.own.listening
      i.inward.tracks.valid.ack_arrived,
)

-- A bit is checked under the lock of the incoming stream, so that no packet is about to be filed.
first-IsSound :
    (l : Listener) (c : Connection) (p : Packet)
    → l ≡ free
    → p.ack_bitset ≡ 0
    → (p.ack_id ≡ 0) ⊎ (IsFiling l p.ack_id ⊎ (has_received_packet c p.ack_id ≡ true))
    → IsSound c p
first-IsSound l c p idle bare h = IsSound-bare c p bare (elim h [
  | inl z ↦ inl z
  | inr (inl w) ↦ absurd (subst (λ x. IsFiling x p.ack_id) idle w)
  | inr (inr r) ↦ inr r
])

pub checks-IsSettled :
    (a b : Host) (p : Packet) (i : ℕ)
    → IsSettled a b
    → a.sender ≡ checking p i
    → i < ack_count
    → a.listener ≡ free
    → IsSettled (host_checks p i a) b
unfolding host_checks is_reliable
checks-IsSettled a b p zero s e lt idle =
    let (maybe, bare, ack) = sender_facts a b (checking p zero) s e in
    let sound = first-IsSound a.listener a.side.connection p idle bare ack in
    let checked = ack_bits-IsSound a.side.connection p zero lt (omega (arith, bare)) sound in
    sender_moved a b _ s (maybe, checked.0, checked.1)
checks-IsSettled a b p (suc i) s e lt idle =
    let (maybe, small, sound) = sender_facts a b (checking p (suc i)) s e in
    let checked = ack_bits-IsSound a.side.connection p (suc i) lt small sound in
    sender_moved a b _ s (maybe, checked.0, checked.1)

-- A packet that leaves goes with all that hold of it.
sent-Flows :
    (a b : Side) (p : Packet)
    → MayBe a.sent p
    → Flows a b
    → Flows (record a { wire = a.wire ++ (p ∷ []) }) b
sent-Flows a b p h f = record {
  counted = f.counted;
  few = f.few;
  outgoing = f.outgoing;
  under_way = All-append (MayBe a.sent) a.wire (p ∷ []) f.under_way (h, tt);
  tracks = f.tracks;
  kept = f.kept;
  headers = f.headers;
}

pub sends-IsSettled :
    (a b : Host) (p : Packet)
    → IsSettled a b
    → a.sender ≡ checking p ack_count
    → IsSettled (host_sends p a) b
unfolding host_sends has_received_packet
sends-IsSettled a b p i e =
    let (maybe, small, sound) = sender_facts a b (checking p ack_count) i e in
    let s = settled a in
    moved a (host_sends p a) b i (sent-Flows s (settled b) p maybe i.outward)
      (receiver-Flows (settled b) s (record s { wire = s.wire ++ (p ∷ []) }) i.inward
        i.inward.tracks (λ id h. h)
        (All-append (IsSound s.connection) s.wire (p ∷ []) i.inward.headers (sound, tt)))
      (same-Grows a.side _ refl refl) (record { listening = i.own.listening; sending = tt })

pub pops-IsSettled : (a b : Host) → IsSettled a b → a.sender ≡ resting → IsSettled (host_pops a) b
unfolding host_pops pop_next_ready_packet has_received_packet
pops-IsSettled a b i e = elim (pop-Popped (settled a).connection) [
  | nothing empty now ↦
      let c = a.side.connection in
      subst
        (λ (r : Option Packet × PacketStream).
          IsSettled
            (record a {
              side = with_connection (record c { outgoing = r.1 }) a.side;
              sender = sender_of r.0;
            })
            b)
        (sym (ap (λ ps. pop_from ps c.outgoing) empty)) (sender_moved a b resting i tt)
  | front p ps first now ↦
      let queue = rw first at i.outward.outgoing.queue in
      let c : Connection = record a.side.connection {
        outgoing = record a.side.connection.outgoing { ready_packets = ps };
      } in
      let d : Connection = record (settled a).connection {
        outgoing = record a.side.connection.outgoing { ready_packets = ps };
      } in
      let valid : IsValid d = rw now at (pop_outgoing-IsValid i.inward.tracks.valid) in
      rw first (
        moved a (record a { side = with_connection c a.side; sender = popped p }) b i
          (sends-Flows (settled a) (settled b) d i.outward refl
            (record { waiting = i.outward.outgoing.waiting; queue = queue.1 }) (λ id h k. k))
          (hears-Flows (settled a) (settled b) d i.inward valid refl)
          (same-Grows a.side _ refl refl)
          (record {
            listening =
                Listening-same a.listener b.side.sent b.side.connection a.side.connection c refl
                  refl i.own.listening;
            sending = queue.0;
          }))
]
