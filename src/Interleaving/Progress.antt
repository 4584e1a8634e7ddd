-- ===== src/Interleaving/Progress.antt =====
-- A call that has begun can be brought to its end.
use gio_net.Base.{◌≡◌, refl}
use mathlib.Core.Path.{subst}
use gio_net.Address.{NetAddress}
use gio_net.Interleaving.{Host, Hosts, Listener, free, locked, acking, noted, resting, Reach, init}
use gio_net.Interleaving.Settled.{IsSettled, IsSettled-sym}
use gio_net.Interleaving.Stream.{Reach-IsSettled}
use gio_net.Interleaving.Hearing.{Arrives, hears}
use gio_net.Interleaving.Departing.{Departs, sends_on}
use gio_net.Interleaving.Runs.{Runs, Runs-append, IsWithin, Reach-IsWithin}

-- The side `a` can end both calls while the other side, `b`, does nothing.
abbrev pub Finishes : Host → Host → Type 0
Finishes b a =
    (a1 : Host) × Runs b a a1
    × (a1.listener ≡ free)
    × (a1.sender ≡ resting)
    × Arrives a.listener a a1
    × Departs a.sender a.side.wire a1.side.wire

Arrives-same :
    (l : Listener) (a a1 a2 : Host)
    → a2.side.connection ≡ a1.side.connection
    → Arrives l a a1
    → Arrives l a a2
Arrives-same free a a1 a2 e h = tt
Arrives-same (locked p) a a1 a2 e h = (λ reliable. rw e (h.0 reliable), λ plain. rw e (h.1 plain))
Arrives-same (acking p n) a a1 a2 e h = (λ reliable. rw e (h.0 reliable), λ plain. rw e (h.1 plain))
Arrives-same (noted p) a a1 a2 e h = (λ reliable. rw e (h.0 reliable), λ plain. rw e (h.1 plain))

-- First the thread that listens, which holds the lock, and then the other.
finishes : (a b : Host) → IsSettled a b → IsWithin a → Finishes b a
finishes a b i within =
    let (a1, run, idle, same_sender, same_wire, arrives) = hears a b a.listener i within.0 refl in
    let (a2, run2, idle2, rests, same_connection, departs) =
      sends_on a1 b a.sender within.1 idle same_sender in
    (
      a2,
      Runs-append run run2,
      idle2,
      rests,
      Arrives-same a.listener a a1 a2 same_connection arrives,
      subst (λ w. Departs a.sender w a2.side.wire) same_wire departs,
    )

-- In every state that two connections reach, wherever the threads of either side are, both of
-- their calls can be brought to an end by steps of that side alone. After that run a reliable
-- packet that was being received has arrived, one that is not reliable is the last of those that
-- wait for the user, behind the ones that waited before, and a packet that was being sent is the
-- last one under way, as it was but for its ack header.
pub interleaved_finish :
    {l r : NetAddress} {s : Hosts}
    → Reach (init l r) s
    → Finishes s.right s.left × Finishes s.left s.right
interleaved_finish {s} reach =
    let i = Reach-IsSettled reach in
    let within = Reach-IsWithin reach in
    (finishes s.left s.right i within.0, finishes s.right s.left (IsSettled-sym i) within.1)
