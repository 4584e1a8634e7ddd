-- ===== src/Connection/Next.antt =====
-- `Received` on the packet that is expected next.
use gio_net.Base.{
  ℕ, ◌≡◌, ◌≢◌, ◌<◌, ◌≤◌, refl, sym, ◌∙◌, arith, true, ok, ◌⊎◌, List, [], ◌∷◌, ◌++◌, length, inl,
  inr, none, some,
}
use mathlib.Core.Path.{subst}
use mathlib.Core.Option.{some_inj}
use gio_net.Base.Map.{Map, find, insert, find-insert}
use gio_net.Packet.{Packet, is_reliable}
use gio_net.Connection.{Connection, received, next_expected, latest_id}
use gio_net.Connection.Ids.{IsId, next_expected-IsId, gap}
use gio_net.Connection.Enqueue.{Run}
use gio_net.Connection.Invariant.{IsValid}
use gio_net.Connection.Received.{Accepted, Accepted-IsValid, received_reliable}

-- The next id always replaces the current one, across the overflow too.
latest_id-next_expected : (id : ℕ) → id < 65536 → latest_id id (next_expected id) ≡ next_expected id
unfolding latest_id next_expected
latest_id-next_expected id h = ground arith

gap-one : (id : ℕ) → id < 65536 → gap id (next_expected id) ≡ 1
unfolding gap next_expected
gap-one id h = ground arith

next_expected-apart : (id : ℕ) → id ≢ next_expected id
unfolding next_expected
next_expected-apart id = ground arith

-- A run of one step to the id it ends at.
Run-one :
    (m : Map Packet) (from to : ℕ) (run : List Packet) (p : Packet)
    → from < 65536
    → find (next_expected from) m ≡ some p
    → Run m from run to
    → length run ≤ 1
    → (to ≡ next_expected from) ⊎ (find (next_expected to) m ≡ none)
    → (run ≡ p ∷ []) × (to ≡ next_expected from)
Run-one m from to [] p h found r short (inl there) = absurd (next_expected-apart from (r ∙ there))
Run-one m from to [] p h found r short (inr gone) = let e = rw r at found in cc
Run-one m from to (q ∷ []) p h found r short stops =
    let same : q ≡ p = some_inj.0 (sym r.0 ∙ found) in (rw same refl, sym r.1)
Run-one m from to (q ∷ s ∷ run) p h found r short stops = absurd (omega (arith, short))

-- The packet that is expected next goes straight to the queue.
pub received-next :
    (c : Connection) (p : Packet)
    → IsValid c
    → c.current_ack_id ≡ c.incoming.sequence_number
    → is_reliable p ≡ true
    → p.id ≡ next_expected c.incoming.sequence_number
    → (d : Connection) × (received c p ≡ ok d)
      × IsValid d
      × (d.incoming.ready_packets ≡ c.incoming.ready_packets ++ (p ∷ []))
      × (d.incoming.sequence_number ≡ p.id)
      × (d.current_ack_id ≡ p.id)
received-next c p v ack reliable next =
    let from = c.incoming.sequence_number in
    let id : IsId p.id = rw next (next_expected-IsId from) in
    let (d, e, a) = received_reliable c p v reliable id in
    let newest : latest_id c.current_ack_id p.id ≡ next_expected from =
      rw (ack, next) (latest_id-next_expected from v.in_sequence) in
    let found : find (next_expected from) (insert p.id p c.incoming.reliable_packets) ≡ some p =
      rw (find-insert p.id (next_expected from) p c.incoming.reliable_packets, next)
        (ground arith) in
    let (one, there) =
      Run-one (insert p.id p c.incoming.reliable_packets) from d.incoming.sequence_number
        a.delivers.run p v.in_sequence found a.delivers.in_order
        (omega (
          arith,
          subst (λ n. length a.delivers.run ≤ gap from n) newest a.delivers.within,
          gap-one from v.in_sequence,
        ))
        (stop c p d newest a) in
    (
      d,
      e,
      Accepted-IsValid p d v reliable id a,
      rw one at a.delivers.queued,
      there ∙ sym next,
      a.new_ack ∙ newest ∙ sym next,
    )
  where
    stop :
        (c : Connection) (p : Packet) (d : Connection)
        → latest_id c.current_ack_id p.id ≡ next_expected c.incoming.sequence_number
        → Accepted c p d
        → (d.incoming.sequence_number ≡ next_expected c.incoming.sequence_number)
          ⊎ (find
                (next_expected d.incoming.sequence_number)
                (insert p.id p c.incoming.reliable_packets)
              ≡ none)
    stop c p d newest a = elim a.delivers.stops [
      | inl at_latest ↦ inl (at_latest ∙ newest)
      | inr at_gap ↦ inr at_gap
    ]
