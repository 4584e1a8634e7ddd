-- ===== src/Server/Drain.antt =====
-- `ProcessReceivedPackets`: every data packet that is ready is handed over, in order.
use gio_net.Base.{
  ℕ, zero, suc, ◌≡◌, ◌<◌, refl, sym, arith, Option, none, some, List, [], ◌∷◌, ◌++◌, ok,
  if◌then◌else◌, append_assoc, append-nil, length, Option-cases, inl, inr, ◌∙◌, Bool, Bool-cases,
  map, filter, ap, ◌==◌,
}
use mathlib.Core.Path.{ap₂}
use gio_net.Base.Map.{Map, find}
use gio_net.Packet.{Packet, get_type, type_bits, data_type}
use gio_net.Connection.{Connection, pop_ready_incoming_packet, pop_next_ready_packet}
use gio_net.Server.{
  Server, Event, data_received, data_events, process_peer, process_body, queue_fuel,
  process_received_packets, get_peers,
}
use gio_net.Server.Each.{AreLive, member, option_map, state_after, each_lem}

-- The connection with nothing left to hand over.
abbrev pub drained : Connection → Connection
drained c = record c { incoming = record c.incoming { ready_packets = [] } }

-- The call of the delegate for a data packet.
abbrev call_for : Connection → Packet → Event
call_for c p = data_received c.address p.payload

abbrev is_data : Packet → Bool
is_data p = get_type p == type_bits data_type

-- The events of a queue: one for each data packet.
abbrev pub queue_events : Connection → List Packet → List Event
queue_events c ps = map (call_for c) (filter is_data ps)

data_events-queue_events :
    (c : Connection) (p : Packet) (ps : List Packet)
    → data_events c p ++ queue_events c ps ≡ queue_events c (p ∷ ps)
data_events-queue_events c p ps = elim (Bool-cases (is_data p)) [
  | inl h ↦ rw h refl
  | inr h ↦ rw h refl
]

abbrev pub handed : Option Connection → List Event
handed none = []
handed (some c) = queue_events c c.incoming.ready_packets

-- The events of the peers, one peer after the other.
abbrev pub deliveries : List ℕ → Map Connection → List Event
deliveries [] h = []
deliveries (p ∷ ps) h = handed (find p h) ++ deliveries ps h

abbrev waiting : Connection → List Packet → Connection
waiting c ps = record c { incoming = record c.incoming { ready_packets = ps } }

process_peer-waiting :
    (c : Connection) (ps : List Packet) (fuel : ℕ) (events : List Event)
    → length ps < fuel
    → process_peer fuel events (waiting c ps) ≡ ok (events ++ queue_events c ps, drained c)
unfolding process_peer pop_ready_incoming_packet pop_next_ready_packet
process_peer-waiting c [] zero events f = ground arith
process_peer-waiting c [] (suc fuel) events f = rw (append-nil events) refl
process_peer-waiting c (p ∷ ps) zero events f = ground arith
process_peer-waiting c (p ∷ ps) (suc fuel) events f =
    process_peer-waiting c ps fuel (events ++ data_events c p) (omega arith)
    ∙ ap (λ es. ok (es, drained c))
        (append_assoc events (data_events c p) (queue_events c ps)
          ∙ ap (λ es. events ++ es) (data_events-queue_events c p ps))

abbrev gathered : List Event → Connection → List Event
gathered events c = events ++ queue_events c c.incoming.ready_packets

process_body_total :
    (events : List Event) (c : Connection)
    → process_body events c ≡ ok (gathered events c, drained c)
process_body_total events c =
    process_peer-waiting c c.incoming.ready_packets (queue_fuel c) events (omega arith)

state_after-deliveries :
    (ps : List ℕ) (events : List Event) (h : Map Connection)
    → state_after gathered ps events h ≡ events ++ deliveries ps h
state_after-deliveries [] events h = sym (append-nil events)
state_after-deliveries (p ∷ ps) events h = elim (Option-cases (find p h)) [
  | inl e ↦ rw e (state_after-deliveries ps events h)
  | inr (c, e) ↦ rw e (
      state_after-deliveries ps (gathered events c) h
      ∙ append_assoc events (queue_events c c.incoming.ready_packets) (deliveries ps h))
]

-- They are the same for tables with the same connections.
pub deliveries-same :
    (ps : List ℕ) (h k : Map Connection)
    → ((q : ℕ) → find q h ≡ find q k)
    → deliveries ps h ≡ deliveries ps k
deliveries-same [] h k e = refl
deliveries-same (p ∷ ps) h k e = ap₂ (λ o es. handed o ++ es) (e p) (deliveries-same ps h k e)

-- When the peers are distinct objects, `ProcessReceivedPackets` returns; it has called the
-- delegate once for each data packet that was ready, peer by peer and in the order of each queue,
-- and has left every peer's queue empty and all else as it was.
pub process_received_packets_lem :
    (s : Server)
    → AreLive (get_peers s) s.connections
    → (t : Server) × (process_received_packets s ≡ ok (deliveries (get_peers s) s.connections, t))
      × ((q : ℕ)
          → find q t.connections ≡ (
              if member q (get_peers s)
              then option_map drained (find q s.connections)
              else find q s.connections))
      × (t.peers ≡ s.peers)
      × (t.socket ≡ s.socket)
      × (t.next_pointer ≡ s.next_pointer)
unfolding process_received_packets
process_received_packets_lem s live =
    let (h, runs, effect) =
      each_lem (λ events. Unit {0}) process_body gathered drained
        (λ events c r. process_body_total events c) (λ events c r. tt) (get_peers s) []
        s.connections tt live in
    (
      record s { connections = h },
      rw runs (rw (state_after-deliveries (get_peers s) [] s.connections) refl),
      effect,
      refl,
      refl,
      refl,
    )
