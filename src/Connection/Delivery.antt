-- ===== src/Connection/Delivery.antt =====
-- What a receiver hands to its user over any history of arrivals and pops.
pub mod Chain
pub mod Tracks
pub mod Stream
pub mod Stale
use gio_net.Base.{◌++◌, List, [], ◌∷◌, Option, none, some, Result, ok, ◌>>=◌}
use gio_net.Packet.{Packet}
use gio_net.Connection.{Connection, received, pop_ready_incoming_packet}
use gio_net.Connection.Acks.{to_list}

-- A packet comes in, in whatever order the network likes, or the user takes one.
pub data Event : Type 0 where
  arrives : Packet → Event
  pops : Event

unfoldable pub step : Connection → List Packet → Event → Result (Connection × List Packet)
step c log (arrives p) = received c p >>= λ d. ok (d, log)
step c log pops = let (popped, d) = pop_ready_incoming_packet c in ok (d, log ++ to_list popped)

-- The connection after the events, and all that the user has taken, in order.
unfoldable pub run : Connection → List Packet → List Event → Result (Connection × List Packet)
run c log [] = ok (c, log)
run c log (e ∷ es) = step c log e >>= λ r. run r.0 r.1 es
