-- ===== src/Interleaving/Stream.antt =====
-- What holds in every state that two connections reach, however the steps of their threads come.
use gio_net.Base.{ℕ, ◌≡◌, ◌<◌, ◌≤◌, length, take, filter, ◌⊎◌}
use gio_net.Address.{NetAddress}
use gio_net.Packet.{is_reliable}
use gio_net.System.Flows.{new_side-Flows}
use gio_net.System.Stream.{payloads_taken, Holds, Flows-prefix, Flows-Holds}
use gio_net.Interleaving.{
  Host, Hosts, Moves, schedules, takes, loses, pops, loads, checks, sends, locks, acks, acks_bit,
  notes, files, queues, Step, left_moves, right_moves, Reach, here, next, init,
}
use gio_net.Interleaving.Settled.{IsSettled, IsSettled-sym, settled}
use gio_net.Interleaving.User.{schedules-IsSettled, takes-IsSettled, loses-IsSettled}
use gio_net.Interleaving.Sending.{
  pops-IsSettled, loads-IsSettled, checks-IsSettled, sends-IsSettled,
}
use gio_net.Interleaving.Acking.{locks-IsSettled, acks-IsSettled, acks_bit-IsSettled}
use gio_net.Interleaving.Noting.{notes-IsSettled}
use gio_net.Interleaving.Filing.{files-IsSettled, queues-IsSettled}

pub Moves-IsSettled : {a b a1 : Host} → Moves b a a1 → IsSettled a b → IsSettled a1 b
Moves-IsSettled {a} {b} (schedules p few) i = schedules-IsSettled a b p i few
Moves-IsSettled {a} {b} (takes e) i = takes-IsSettled a b i
Moves-IsSettled {a} {b} (loses n) i = loses-IsSettled a b n i
Moves-IsSettled {a} {b} (pops e) i = pops-IsSettled a b i e
Moves-IsSettled {a} {b} (loads p e) i = loads-IsSettled a b p i e
Moves-IsSettled {a} {b} (checks p n e lt idle) i = checks-IsSettled a b p n i e lt idle
Moves-IsSettled {a} {b} (sends p e) i = sends-IsSettled a b p i e
Moves-IsSettled {a} {b} (locks p e there) i = locks-IsSettled a b p i e there
Moves-IsSettled {a} {b} (acks p e) i = acks-IsSettled a b p i e
Moves-IsSettled {a} {b} (acks_bit p n e lt) i = acks_bit-IsSettled a b p n i e lt
Moves-IsSettled {a} {b} (notes p d e reliable s) i = notes-IsSettled a b p d i e reliable s
Moves-IsSettled {a} {b} (files p d e s) i = files-IsSettled a b p d i e s
Moves-IsSettled {a} {b} (queues p e plain) i = queues-IsSettled a b p i e plain

pub Step-IsSettled : {s t : Hosts} → Step s t → IsSettled s.left s.right → IsSettled t.left t.right
Step-IsSettled (left_moves m) i = Moves-IsSettled m i
Step-IsSettled (right_moves m) i = IsSettled-sym (Moves-IsSettled m (IsSettled-sym i))

pub Reach-IsSettled : {l r : NetAddress} {s : Hosts} → Reach (init l r) s → IsSettled s.left s.right
Reach-IsSettled {l} {r} here = record {
  outward = new_side-Flows r l;
  inward = new_side-Flows l r;
  own = record { listening = tt; sending = tt };
  other = record { listening = tt; sending = tt };
}
Reach-IsSettled (next reach step) = Step-IsSettled step (Reach-IsSettled reach)

-- Two new connections, on each side of which a thread that listens and a thread that sends run,
-- one access to what they share at a time, while their users schedule and take packets and the
-- network loses, repeats and reorders them: in every state that they reach, while each side
-- schedules at most 65534 reliable packets, the payloads of the reliable packets that either user
-- has taken are the first ones that the other has scheduled, in order and once each.
pub interleaved_prefix :
    {l r : NetAddress} {s : Hosts}
    → Reach (init l r) s
    → (payloads_taken s.right.side
        ≡ take (length (filter is_reliable s.right.side.taken)) s.left.side.sent)
      × (payloads_taken s.left.side
          ≡ take (length (filter is_reliable s.left.side.taken)) s.right.side.sent)
interleaved_prefix {s} reach =
    let i = Reach-IsSettled reach in
    (
      Flows-prefix (settled s.left) (settled s.right) i.outward,
      Flows-prefix (settled s.right) (settled s.left) i.inward,
    )

-- In the same states no reliable packet is lost, wherever the threads are: the one that the left
-- side scheduled as the n-th still waits with its payload at the sender, under the id n, or it
-- has arrived with its payload under that id.
pub interleaved_kept :
    {l r : NetAddress} {s : Hosts}
    → Reach (init l r) s
    → (id : ℕ) → 0 < id
    → id ≤ length s.left.side.sent
    → Holds s.left.side.sent s.left.side.connection.outgoing.reliable_packets id
      ⊎ Holds s.left.side.sent s.right.side.connection.incoming.reliable_packets id
interleaved_kept {s} reach =
    let i = Reach-IsSettled reach in
    Flows-Holds (settled s.left) (settled s.right) i.outward i.inward.tracks.valid
