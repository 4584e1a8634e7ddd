-- ===== src/Connection/Delivery/Stale.antt =====
-- The map of received packets is never emptied, so after a full cycle of ids it holds an old
-- packet under every id.
use mathlib.Core.Path.{subst}
use gio_net.Base.{
  ℕ, ◌≡◌, ◌≢◌, ◌≤◌, ap, ◌∙◌, true, arith, none, some, List, [], ◌∷◌, ◌++◌, ok, length, ◌⊎◌,
}
use gio_net.Base.Map.{Map, find, insert, find-insert, contains-of-find}
use gio_net.Packet.{Packet, is_reliable}
use gio_net.Connection.{
  Connection, PacketStream, received, next_expected, latest_id, has_received_packet,
}
use gio_net.Connection.Ids.{IsId, next_expected-IsId, gap}
use gio_net.Connection.Enqueue.{Run, Delivers}
use gio_net.Connection.Invariant.{IsValid}
use gio_net.Connection.Received.{received_reliable, filed}

-- Two steps ahead is a newer id.
latest-two_ahead :
    (s : ℕ)
    → IsId s
    → latest_id s (next_expected (next_expected s)) ≡ next_expected (next_expected s)
unfolding latest_id next_expected
latest-two_ahead s h = ground arith

gap-two_ahead : (s : ℕ) → IsId s → gap s (next_expected (next_expected s)) ≡ 2
unfolding gap next_expected
gap-two_ahead s h = ground arith

distinct_steps :
    (s : ℕ)
    → IsId s
    → (s ≢ next_expected (next_expected s)) × (next_expected s ≢ next_expected (next_expected s))
unfolding next_expected
distinct_steps s h = ground arith

-- A run of at most two packets to two steps ahead, when both are there, is these two.
Run-two_ahead :
    (m : Map Packet) (s to : ℕ) (old p : Packet) (ps : List Packet)
    → IsId s
    → find (next_expected s) m ≡ some old
    → find (next_expected (next_expected s)) m ≡ some p
    → Run m s ps to
    → (to ≡ next_expected (next_expected s)) ⊎ (find (next_expected to) m ≡ none)
    → length ps ≤ 2
    → ps ≡ old ∷ p ∷ []
Run-two_ahead m s to old p [] h e f r stop le = ground (arith, distinct_steps s h)
Run-two_ahead m s to old p (x ∷ []) h e f r stop le = ground (arith, distinct_steps s h)
Run-two_ahead m s to old p (x ∷ y ∷ []) h e f r stop le = ground arith
Run-two_ahead m s to old p (x ∷ y ∷ z ∷ ps) h e f r stop le = absurd (omega arith)

module _ (c : Connection) (p old : Packet) (id : IsId c.incoming.sequence_number)
    (found : find (next_expected c.incoming.sequence_number) c.incoming.reliable_packets ≡ some old)
    (ahead : p.id ≡ next_expected (next_expected c.incoming.sequence_number)) where
  old_found :
      find (next_expected c.incoming.sequence_number) (insert p.id p c.incoming.reliable_packets)
      ≡ some old
  old_found = ground (
    arith,
    distinct_steps c.incoming.sequence_number id,
    find-insert p.id (next_expected c.incoming.sequence_number) p c.incoming.reliable_packets,
  )

  new_found : find p.id (insert p.id p c.incoming.reliable_packets) ≡ some p
  new_found = ground (arith, find-insert p.id p.id p c.incoming.reliable_packets)

  delivered_run :
      (t : PacketStream) (d : Delivers p.id (filed p c.incoming) t) → d.run ≡ old ∷ p ∷ []
  delivered_run t d =
      Run-two_ahead (insert p.id p c.incoming.reliable_packets) c.incoming.sequence_number
        t.sequence_number old p d.run id old_found (rw (← ahead) new_found) d.in_order
        (subst
          (λ k.
            (t.sequence_number ≡ k)
            ⊎ (find (next_expected t.sequence_number) (insert p.id p c.incoming.reliable_packets)
                ≡ none))
          ahead d.stops)
        (omega (
          arith,
          d.within,
          ap (gap c.incoming.sequence_number) ahead,
          gap-two_ahead c.incoming.sequence_number id,
        ))

  newest : c.current_ack_id ≡ c.incoming.sequence_number → latest_id c.current_ack_id p.id ≡ p.id
  newest acked = rw (acked, ahead) (latest-two_ahead c.incoming.sequence_number id)

-- On a valid connection that has delivered all packets up to its ack id: if the map still holds
-- an old packet under the next expected id, and the reliable packet behind that id arrives first,
-- then the old packet is queued for the user in place of the one that is still under way, and the
-- ack id moves past it.
pub stale_packet_delivered :
    (c : Connection) (p old : Packet)
    → IsValid c
    → IsId c.incoming.sequence_number
    → c.current_ack_id ≡ c.incoming.sequence_number
    → find (next_expected c.incoming.sequence_number) c.incoming.reliable_packets ≡ some old
    → is_reliable p ≡ true
    → p.id ≡ next_expected (next_expected c.incoming.sequence_number)
    → (d : Connection) × (received c p ≡ ok d)
      × (d.incoming.ready_packets ≡ c.incoming.ready_packets ++ (old ∷ p ∷ []))
      × (d.current_ack_id ≡ p.id)
      × (has_received_packet d (next_expected c.incoming.sequence_number) ≡ true)
unfolding has_received_packet
stale_packet_delivered c p old v id acked found reliable ahead =
    let valid_id : IsId p.id =
      rw ahead (next_expected-IsId (next_expected c.incoming.sequence_number)) in
    let r = received_reliable c p v reliable valid_id in
    let e = newest c p old id found ahead acked in
    let t = subst (λ k. Delivers k (filed p c.incoming) r.0.incoming) e r.2.delivers in
    (
      r.0,
      r.1,
      t.queued
          ∙ ap (◌++◌ c.incoming.ready_packets)
              (delivered_run c p old id found ahead r.0.incoming t),
      r.2.new_ack ∙ e,
      rw t.same_map (contains-of-find _ old _ (old_found c p old id found ahead)),
    )
