-- ===== src/Interleaving/Runs.antt =====
-- Runs of one side by itself, and how far its threads are in their loops.
use gio_net.Base.{Option, none, some, ◌≤◌, arith}
use gio_net.Address.{NetAddress}
use gio_net.Packet.{Packet}
use gio_net.Connection.{ack_count, pop_next_ready_packet}
use gio_net.Interleaving.{
  Host, Hosts, Listener, free, locked, acking, noted, Sender, resting, popped, checking, sender_of,
  Moves, schedules, takes, loses, pops, loads, checks, sends, locks, acks, acks_bit, notes, files,
  queues, host_pops, host_loads, host_checks, host_sends, host_acks, host_acks_bit, left_moves,
  right_moves, Reach, here, next, init,
}

-- What the side may do while the other, `b`, does nothing.
pub data Runs (b : Host) : Host → Host → Type 0 where
  stays : {a : Host} → Runs b a a
  moves : {a a1 a2 : Host} → Moves b a a1 → Runs b a1 a2 → Runs b a a2

pub Runs-append : {b a a1 a2 : Host} → Runs b a a1 → Runs b a1 a2 → Runs b a a2
Runs-append stays r = r
Runs-append (moves m q) r = moves m (Runs-append q r)

abbrev pub ListenerWithin : Listener → Type 0
ListenerWithin free = Unit
ListenerWithin (locked p) = Unit
ListenerWithin (acking p i) = i ≤ ack_count
ListenerWithin (noted p) = Unit

abbrev pub SenderWithin : Sender → Type 0
SenderWithin resting = Unit
SenderWithin (popped p) = Unit
SenderWithin (checking p i) = i ≤ ack_count

-- No loop goes beyond its last round.
abbrev pub IsWithin : Host → Type 0
IsWithin a = ListenerWithin a.listener × SenderWithin a.sender

sender_of-within : (popped : Option Packet) → SenderWithin (sender_of popped)
sender_of-within none = tt
sender_of-within (some p) = tt

Moves-IsWithin : {b a a1 : Host} → Moves b a a1 → IsWithin a → IsWithin a1
unfolding host_pops host_loads host_checks host_sends host_acks host_acks_bit
Moves-IsWithin (schedules p few) h = h
Moves-IsWithin (takes e) h = h
Moves-IsWithin (loses n) h = h
Moves-IsWithin {b} {a} (pops e) h =
    (h.0, sender_of-within (pop_next_ready_packet a.side.connection.outgoing).0)
Moves-IsWithin (loads p e) h = (h.0, omega arith)
Moves-IsWithin (checks p i e lt idle) h = (h.0, omega (arith, lt))
Moves-IsWithin (sends p e) h = (h.0, tt)
Moves-IsWithin (locks p e there) h = (tt, h.1)
Moves-IsWithin (acks p e) h = (omega arith, h.1)
Moves-IsWithin (acks_bit p i e lt) h = (omega (arith, lt), h.1)
Moves-IsWithin (notes p d e reliable s) h = (tt, h.1)
Moves-IsWithin (files p d e s) h = (tt, h.1)
Moves-IsWithin (queues p e plain) h = (tt, h.1)

pub Reach-IsWithin :
    {l r : NetAddress} {s : Hosts} → Reach (init l r) s → IsWithin s.left × IsWithin s.right
Reach-IsWithin here = ((tt, tt), (tt, tt))
Reach-IsWithin (next reach (left_moves m)) =
    let h = Reach-IsWithin reach in (Moves-IsWithin m h.0, h.1)
Reach-IsWithin (next reach (right_moves m)) =
    let h = Reach-IsWithin reach in (h.0, Moves-IsWithin m h.1)
