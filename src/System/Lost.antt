-- ===== src/System/Lost.antt =====
-- A stream that has stalled: the receiver waits for a packet that never comes again.
use gio_net.Base.{
  ℕ, suc, ◌+◌, ◌-◌, ◌≡◌, ◌<◌, ◌≤◌, false, arith, List, [], ◌∷◌, All, length, length-append, filter,
  filter-append, Bool-cases, inl, inr,
}
use mathlib.Core.Path.{subst}
use gio_net.Buffer.{Buffer}
use gio_net.Address.{NetAddress}
use gio_net.Packet.{Packet, is_reliable}
use gio_net.Connection.{has_received_packet, next_expected}
use gio_net.Connection.Ids.{next_expected_lem}
use gio_net.Connection.Delivery.Chain.{Chain}
use gio_net.System.{
  System, Side, init, limit, Acts, schedules, transmits, receives, takes, loses, side_schedules,
  side_transmits, side_takes, Step, left_acts, right_acts, Reach, here, next,
}
use gio_net.System.Genuine.{IsGenuine, get_elem?-lt}
use gio_net.System.Flows.{Flows}
use gio_net.System.Stream.{IsSound, Step-IsSound, Reach-IsSound}
use gio_net.System.Stall.{half_limit, IsGone, IsPassed}
use gio_net.System.Gone.{Acts-IsGone}
use gio_net.System.Passed.{Acts-IsPassed}

-- The packet k is gone on the left, and the right has passed it.
pub record IsStalled (k : ℕ) (s : System) : Type 0 where
  pub gone : IsGone k s.left
  pub passed : IsPassed k s.right

Acts-sent : {a b a1 : Side} → Acts b a a1 → length a.sent ≤ length a1.sent
unfolding side_schedules side_transmits side_takes
Acts-sent {a} (schedules p _) = elim (Bool-cases (is_reliable p)) [
  | inl reliable ↦ rw reliable (omega (arith, length-append a.sent (p.payload ∷ [])))
  | inr plain ↦ rw plain (omega arith)
]
Acts-sent transmits = omega arith
Acts-sent (receives p d _ _) = omega arith
Acts-sent takes = omega arith
Acts-sent (loses n) = omega arith

Step-sent : {s t : System} → Step s t → length s.left.sent ≤ length t.left.sent
Step-sent (left_acts a) = Acts-sent a
Step-sent (right_acts a) = omega arith

module _ (k : ℕ) (pos : 0 < k) (small : k ≤ half_limit) where
  Step-IsStalled :
      {s t : System}
      → Step s t
      → IsSound s
      → length s.left.sent ≤ half_limit
      → IsStalled k s
      → IsStalled k t
  Step-IsStalled {s} (left_acts a) i few stalled = record {
    gone =
        Acts-IsGone k pos small s.left s.right i.rightward i.leftward a stalled.passed stalled.gone;
    passed = stalled.passed;
  }
  Step-IsStalled {s} (right_acts a) i few stalled = record {
    gone = stalled.gone;
    passed = Acts-IsPassed k pos small s.left s.right i.rightward a few stalled.gone stalled.passed;
  }

  Reach-IsStalled :
      {s t : System}
      → Reach s t
      → IsSound s
      → IsStalled k s
      → length t.left.sent ≤ half_limit
      → IsSound t × IsStalled k t
  Reach-IsStalled here i stalled few = (i, stalled)
  Reach-IsStalled (next reach step) i stalled few =
      let lt = Step-sent step in
      let (i1, stalled1) = Reach-IsStalled reach i stalled (omega (arith, lt)) in
      (Step-IsSound step i1, Step-IsStalled step i1 (omega (arith, lt)) stalled1)

-- A chain of genuine packets is as long as the ids are apart.
Chain-length :
    (sent : List Buffer) (from to : ℕ) (ps : List Packet)
    → length sent ≤ limit
    → from ≤ limit
    → Chain from ps to
    → All (IsGenuine sent) ps
    → from + length ps ≡ to
Chain-length sent from to [] few small h g = omega (arith, h)
Chain-length sent from to (p ∷ ps) few small h g =
    let now : next_expected from ≡ suc from = omega (arith, next_expected_lem from) in
    let inside = get_elem?-lt sent (p.id - 1) p.payload g.0 in
    omega (
      arith,
      Chain-length sent (suc from) to ps few (omega (arith, inside, h.0, now))
          (subst (λ n. Chain n ps to) now h.1) g.1,
    )

taken-lt :
    (a b : Side)
    → Flows a b
    → length (filter is_reliable b.taken) ≤ b.connection.incoming.sequence_number
taken-lt a b f =
    let ready = filter is_reliable b.connection.incoming.ready_packets in
    let split = filter-append is_reliable b.taken b.connection.incoming.ready_packets in
    let whole = Chain-length a.sent 0 _ _ f.few (omega arith) f.tracks.chained f.tracks.genuine in
    let parts = length-append (filter is_reliable b.taken) ready in
    omega (arith, rw split at whole, parts)

-- Four bits are too few: suppose that of two new connections the left one has scheduled the
-- reliable packet k, no copy of it waits to go out or is under way, the right one lacks it and is
-- at an ack id more than four ahead of it, and no header under way to the left is of one of the
-- four ids behind which k is reported. Then, as long as the left side schedules no more than
-- 32767 reliable packets, the packet k never arrives, whatever either side does and the network
-- carries: the user of the right side takes fewer than k reliable packets for ever.
pub stalled_forever :
    (k : ℕ) {l r : NetAddress} {s t : System}
    → 0 < k
    → k ≤ half_limit
    → Reach (init l r) s
    → IsStalled k s
    → Reach s t
    → length t.left.sent ≤ half_limit
    → (has_received_packet t.right.connection k ≡ false)
      × (length (filter is_reliable t.right.taken) < k)
stalled_forever k {s} {t} pos small start stalled reach few =
    let (i, st) = Reach-IsStalled k pos small reach (Reach-IsSound start) stalled few in
    (st.passed.missing, omega (arith, taken-lt t.left t.right i.rightward, st.passed.behind_it))
