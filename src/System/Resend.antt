-- ===== src/System/Resend.antt =====
-- What a header makes the sender send once more.
use gio_net.Base.{
  ℕ, zero, suc, ◌+◌, ◌≡◌, ◌<◌, refl, ◌∙◌, Bool, true, false, arith, some, List, [], ◌∷◌, ◌++◌, inl,
  inr, ok,
}
use gio_net.Base.Map.{Map, find, contains}
use gio_net.Packet.{Packet, is_reliable}
use gio_net.Connection.{Connection, received, has_received_packet, add_ack_header}
use gio_net.Connection.Invariant.{find-IsFiled}
use gio_net.Connection.Acks.{behind, resent, resends, test_bit}
use gio_net.Connection.Acks.Bitset.{add_ack_header_lem}
use gio_net.Connection.Acks.Process.{ready_packets-process_acks}
use gio_net.System.{Side, In}
use gio_net.System.Genuine.{MayBe, All-In}
use gio_net.System.Flows.{Flows}
use gio_net.System.Popped.{received-outgoing}
use gio_net.System.Stream.{found_of_contains}

-- A reliable packet with the id k stands in the list.
abbrev pub Has : ℕ → List Packet → Type 0
Has k ps = (p : Packet) × In p ps × (is_reliable p ≡ true) × (p.id ≡ k)

pub In-last : (p : Packet) (xs : List Packet) → In p (xs ++ (p ∷ []))
In-last p [] = inl refl
In-last p (x ∷ xs) = inr (In-last p xs)

In-left : (p : Packet) (xs ys : List Packet) → In p xs → In p (xs ++ ys)
In-left p [] ys i = absurd i
In-left p (x ∷ xs) ys (inl e) = inl e
In-left p (x ∷ xs) ys (inr i) = inr (In-left p xs ys i)

In-right : (p : Packet) (xs ys : List Packet) → In p ys → In p (xs ++ ys)
In-right p [] ys i = i
In-right p (x ∷ xs) ys i = inr (In-right p xs ys i)

In-resent :
    (p : Packet) (acked : Bool) (j : ℕ) (m : Map Packet)
    → find j m ≡ some p
    → acked ≡ false
    → In p (resent acked j m)
In-resent p acked j m found off = rw (off, found) (inl refl)

-- An id whose bit is off in a header and that still waits is sent once more.
In-resends :
    (p q : Packet) (m : Map Packet) (n : ℕ)
    → n < 4
    → find (behind (n + 1) q.ack_id) m ≡ some p
    → test_bit n q.ack_bitset ≡ false
    → In p (resends q m)
In-resends p q m n lt found off = go n lt found off
  where
    r : ℕ → List Packet
    r i = resent (test_bit i q.ack_bitset) (behind (i + 1) q.ack_id) m

    at :
        (i : ℕ)
        → find (behind (i + 1) q.ack_id) m ≡ some p
        → test_bit i q.ack_bitset ≡ false
        → In p (r i)
    at i found off = In-resent p (test_bit i q.ack_bitset) (behind (i + 1) q.ack_id) m found off

    go :
        (i : ℕ)
        → i < 4
        → find (behind (i + 1) q.ack_id) m ≡ some p
        → test_bit i q.ack_bitset ≡ false
        → In p (r 0 ++ (r 1 ++ (r 2 ++ (r 3 ++ []))))
    go zero lt found off = In-left p (r 0) _ (at 0 found off)
    go (suc zero) lt found off = In-right p (r 0) _ (In-left p (r 1) _ (at 1 found off))
    go (suc (suc zero)) lt found off =
        In-right p (r 0) _ (In-right p (r 1) _ (In-left p (r 2) _ (at 2 found off)))
    go (suc (suc (suc zero))) lt found off =
        In-right p (r 0) _
          (In-right p (r 1) _ (In-right p (r 2) _ (In-left p (r 3) [] (at 3 found off))))
    go (suc (suc (suc (suc i)))) lt found off = absurd (omega arith)

-- Each of the four bits reports one of the four ids behind the ack id.
bit_lem :
    (c : Connection) (p : Packet) (n : ℕ)
    → n < 4
    → test_bit n (add_ack_header c p).ack_bitset
      ≡ has_received_packet c (behind (n + 1) c.current_ack_id)
bit_lem c p zero lt = (add_ack_header_lem c p).1
bit_lem c p (suc zero) lt = (add_ack_header_lem c p).2
bit_lem c p (suc (suc zero)) lt = (add_ack_header_lem c p).3
bit_lem c p (suc (suc (suc zero))) lt = (add_ack_header_lem c p).4
bit_lem c p (suc (suc (suc (suc n)))) lt = absurd (omega arith)

-- The left side takes in the header, and the packet is in its queue.
pub resends_lost :
    (k n : ℕ) (a b : Side) (c d : Connection) (p : Packet)
    → Flows a b
    → Flows b a
    → n < 4
    → In (add_ack_header c p) b.wire
    → received a.connection (add_ack_header c p) ≡ ok d
    → c.current_ack_id ≡ k + n + 1
    → c.current_ack_id < 65536
    → has_received_packet c k ≡ false
    → contains k a.connection.outgoing.reliable_packets ≡ true
    → Has k d.outgoing.ready_packets
resends_lost k n a b c d p f g lt there e ack small lacking waits =
    let q = add_ack_header c p in
    let m = a.connection.outgoing.reliable_packets in
    let arrival = All-In (MayBe b.sent) q b.wire g.under_way there in
    let same =
      received-outgoing a.connection d q g.tracks.valid (λ reliable. (arrival reliable).0) e in
    let q_ack : q.ack_id ≡ c.current_ack_id = (add_ack_header_lem c p).0 in
    let (pk, found) = found_of_contains k m waits in
    let filed = find-IsFiled m k pk g.tracks.valid.kept found in
    let key : behind (n + 1) q.ack_id ≡ k = omega (arith, q_ack, ack) in
    let c_key : behind (n + 1) c.current_ack_id ≡ k = omega (arith, ack) in
    let off : test_bit n q.ack_bitset ≡ false = bit_lem c p n lt ∙ rw c_key lacking in
    let resent_now : In pk (resends q m) = In-resends pk q m n lt (rw key found) off in
    (
      pk,
      rw (same, ready_packets-process_acks a.connection q (omega (arith, q_ack)))
          (In-right pk a.connection.outgoing.ready_packets (resends q m) resent_now),
      filed.1.0,
      filed.0,
    )
