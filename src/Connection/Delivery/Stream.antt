-- ===== src/Connection/Delivery/Stream.antt =====
-- Reliable packets come out in the order of their ids, and as they came in.
use mathlib.Core.Path.{ap₂}
use gio_net.Base.{
  ℕ, ◌≡◌, ◌<◌, refl, ap, ◌∙◌, arith, List, [], ◌∷◌, ◌++◌, All, length, filter, filter-append, map,
  inl, ok,
}
use gio_net.Buffer.{Buffer}
use gio_net.Address.{NetAddress}
use gio_net.Packet.{Packet, is_reliable}
use gio_net.Connection.{Connection, next_expected, new_connection, set_incoming_sequence_number}
use gio_net.Connection.Delivery.{Event, run}
use gio_net.Connection.Delivery.Chain.{Chain, Chain-prefix, ids, Chain-ids}
use gio_net.Connection.Delivery.Tracks.{Tracks, MayArrive, history-Tracks}

-- A connection that expects the id behind `start` next, and has received nothing.
abbrev pub fresh : NetAddress → ℕ → Connection
fresh a start = set_incoming_sequence_number start (new_connection a)

fresh-Tracks {κ} :
    (P : Packet → Type κ) (a : NetAddress) (start : ℕ)
    → start < 65536
    → Tracks P start (fresh a start) []
unfolding set_incoming_sequence_number
fresh-Tracks P a start h = record {
  valid = record {
    kept = tt;
    arrived = tt;
    sending = tt;
    out_sequence = omega arith;
    in_sequence = h;
    ack_in_range = omega arith;
    ack_arrived = inl refl;
  };
  chained = refl;
  genuine_filed = tt;
  genuine = tt;
}

payloads_sent :
    (sent : ℕ → Buffer) (from to : ℕ) (ps : List Packet)
    → Chain from ps to
    → All (λ (p : Packet). p.payload ≡ sent p.id) ps
    → map (λ (p : Packet). p.payload) ps ≡ map sent (ids from (length ps))
unfolding ids
payloads_sent sent from to [] h a = refl
payloads_sent sent from to (p ∷ ps) h a =
    ap₂ ◌∷◌ (a.0 ∙ ap sent h.0) (payloads_sent sent (next_expected from) to ps h.1 a.1)

pub All-prefix {ℓ κ} : {A : Type ℓ} (P : A → Type κ) (xs ys : List A) → All P (xs ++ ys) → All P xs
All-prefix P [] ys h = tt
All-prefix P (x ∷ xs) ys h = (h.0, All-prefix P xs ys h.1)

-- Over any history of arrivals and pops at a connection that has received nothing, if every
-- reliable packet that arrives bears a valid id and the one payload that there is for that id,
-- then no call fails, and the reliable packets that the user takes have the ids that follow the
-- starting one in the order of the cycle, none left out, and the payloads of these ids. In the
-- cycle 1 comes after 65535, so the ids come again after 65535 packets.
pub reliable_stream :
    (sent : ℕ → Buffer) (a : NetAddress) (start : ℕ) (es : List Event)
    → start < 65536
    → All (MayArrive (λ (p : Packet). p.payload ≡ sent p.id)) es
    → (c : Connection) × (log : List Packet) × (run (fresh a start) [] es ≡ ok (c, log))
      × (map (λ (p : Packet). p.id) (filter is_reliable log)
          ≡ ids start (length (filter is_reliable log)))
      × (map (λ (p : Packet). p.payload) (filter is_reliable log)
          ≡ map sent (ids start (length (filter is_reliable log))))
reliable_stream sent a start es h may =
    let P = λ (p : Packet). p.payload ≡ sent p.id in
    let r = history-Tracks P start (fresh a start) [] es (fresh-Tracks P a start h) may in
    let split = filter-append is_reliable r.0.1 r.0.0.incoming.ready_packets in
    let c = Chain-prefix start _ (filter is_reliable r.0.1) _ (rw split at r.2.chained) in
    let g = All-prefix P (filter is_reliable r.0.1) _ (rw split at r.2.genuine) in
    (
      r.0.0,
      r.0.1,
      r.1,
      Chain-ids start c.0 (filter is_reliable r.0.1) c.1,
      payloads_sent sent start c.0 (filter is_reliable r.0.1) c.1 g,
    )
