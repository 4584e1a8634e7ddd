-- ===== src/System/Stream.antt =====
-- What holds in every state that two connections can reach over the network.
use gio_net.Base.{
  ℕ, zero, suc, ◌-◌, ◌≡◌, ◌<◌, ◌≤◌, refl, ap, true, arith, some, List, [], ◌∷◌, All, length, take,
  drop, map, filter, filter-append, ◌⊎◌, inl, inr, Option-cases, ok,
}
use mathlib.Core.Path.{subst}
use gio_net.Base.Map.{Map, find, contains}
use gio_net.Buffer.{Buffer}
use gio_net.Address.{NetAddress}
use gio_net.Packet.{Packet, is_reliable}
use gio_net.Connection.{Connection, received, has_received_packet, next_expected}
use gio_net.Connection.Ids.{next_expected_lem}
use gio_net.Connection.Invariant.{IsValid, find-IsFiled}
use gio_net.Connection.Received.{received-IsValid}
use gio_net.Connection.Delivery.Chain.{Chain, Chain-prefix}
use gio_net.Connection.Delivery.Stream.{All-prefix}
use gio_net.Connection.Delivery.Tracks.{All-find}
use gio_net.System.{System, Side, init, limit, Step, left_acts, right_acts, Reach, here, next, In}
use gio_net.System.Genuine.{IsGenuine, MayBe, get_elem?, get_elem?-lt, All-In}
use gio_net.System.Flows.{Flows, new_side-Flows}
use gio_net.System.Sender.{Acts-sender}
use gio_net.System.Receiver.{Acts-receiver}

-- Both flows.
pub record IsSound (s : System) : Type 0 where
  pub rightward : Flows s.left s.right
  pub leftward : Flows s.right s.left

pub Step-IsSound : {s t : System} → Step s t → IsSound s → IsSound t
Step-IsSound (left_acts a) i = record {
  rightward = Acts-sender a i.rightward i.leftward;
  leftward = Acts-receiver a i.leftward;
}
Step-IsSound (right_acts a) i = record {
  rightward = Acts-receiver a i.rightward;
  leftward = Acts-sender a i.leftward i.rightward;
}

pub Reach-IsSound : {l r : NetAddress} {s : System} → Reach (init l r) s → IsSound s
Reach-IsSound {l} {r} here = record {
  rightward = new_side-Flows r l;
  leftward = new_side-Flows l r;
}
Reach-IsSound (next reach step) = Step-IsSound step (Reach-IsSound reach)

drop-get_elem? :
    (xs : List Buffer) (i : ℕ) (b : Buffer)
    → get_elem? xs i ≡ some b
    → drop i xs ≡ b ∷ drop (suc i) xs
drop-get_elem? [] i b h = cc
drop-get_elem? (x ∷ xs) zero b h = ground arith
drop-get_elem? (x ∷ xs) (suc i) b h = drop-get_elem? xs i b h

-- A chain of genuine packets is a piece of what was sent.
Chain-payloads :
    (sent : List Buffer) (from to : ℕ) (ps : List Packet)
    → length sent ≤ limit
    → from ≤ limit
    → Chain from ps to
    → All (IsGenuine sent) ps
    → map (λ (p : Packet). p.payload) ps ≡ take (length ps) (drop from sent)
Chain-payloads sent from to [] few small h g = refl
Chain-payloads sent from to (p ∷ ps) few small h g =
    let now : next_expected from ≡ suc from = omega (arith, next_expected_lem from) in
    let at_place : p.id - 1 ≡ from = omega (arith, h.0, now) in
    let there : get_elem? sent from ≡ some p.payload = rw at_place at g.0 in
    let inside = get_elem?-lt sent from p.payload there in
    rw (drop-get_elem? sent from p.payload there) (
      ap (◌∷◌ p.payload) (
        Chain-payloads sent (suc from) to ps few (omega (arith, inside))
          (subst (λ n. Chain n ps to) now h.1) g.1))

-- What the user at the end of a flow has taken.
abbrev pub payloads_taken : Side → List Buffer
payloads_taken b = map (λ (p : Packet). p.payload) (filter is_reliable b.taken)

pub Flows-prefix :
    (a b : Side) → Flows a b → payloads_taken b ≡ take (length (filter is_reliable b.taken)) a.sent
Flows-prefix a b f =
    let split = filter-append is_reliable b.taken b.connection.incoming.ready_packets in
    let c = Chain-prefix 0 _ (filter is_reliable b.taken) _ (rw split at f.tracks.chained) in
    let g =
      All-prefix (IsGenuine a.sent) (filter is_reliable b.taken) _ (rw split at f.tracks.genuine) in
    Chain-payloads a.sent 0 c.0 (filter is_reliable b.taken) f.few (omega arith) c.1 g

-- In every state that two new connections reach over a network that loses, repeats and reorders
-- packets, while each schedules at most 65534 reliable packets: the payloads of the reliable
-- packets that either user has taken are the first ones that the other has scheduled, in order
-- and once each.
pub reach_prefix :
    {l r : NetAddress} {s : System}
    → Reach (init l r) s
    → (payloads_taken s.right ≡ take (length (filter is_reliable s.right.taken)) s.left.sent)
      × (payloads_taken s.left ≡ take (length (filter is_reliable s.left.taken)) s.right.sent)
reach_prefix {s} reach =
    let i = Reach-IsSound reach in
    (Flows-prefix s.left s.right i.rightward, Flows-prefix s.right s.left i.leftward)

-- The map has the packet of the id, with the payload that was sent under it.
abbrev pub Holds : List Buffer → Map Packet → ℕ → Type 0
Holds sent m id = (p : Packet) × (find id m ≡ some p) × (get_elem? sent (id - 1) ≡ some p.payload)

pub found_of_contains :
    (id : ℕ) (m : Map Packet) → contains id m ≡ true → (p : Packet) × (find id m ≡ some p)
unfolding contains
found_of_contains id m h = elim (Option-cases (find id m)) [
  | inl e ↦ ground (arith, e)
  | inr (p, e) ↦ (p, e)
]

pub Flows-Holds :
    (a b : Side)
    → Flows a b
    → IsValid a.connection
    → (id : ℕ) → 0 < id
    → id ≤ length a.sent
    → Holds a.sent a.connection.outgoing.reliable_packets id
      ⊎ Holds a.sent b.connection.incoming.reliable_packets id
Flows-Holds a b f v id h k = elim (f.kept id h k) [
  | inl w ↦
      let (p, e) = found_of_contains id a.connection.outgoing.reliable_packets w in
      let filed = find-IsFiled a.connection.outgoing.reliable_packets id p v.kept e in
      let g =
        All-find (MayBe a.sent) id p a.connection.outgoing.reliable_packets f.outgoing.waiting e in
      inl (p, e, rw filed.0 at ((g filed.1.0).1))
  | inr r ↦
      let (p, e) =
        found_of_contains id b.connection.incoming.reliable_packets
          (unfold has_received_packet in r) in
      let filed =
        find-IsFiled b.connection.incoming.reliable_packets id p f.tracks.valid.arrived e in
      let g =
        All-find (IsGenuine a.sent) id p b.connection.incoming.reliable_packets
          f.tracks.genuine_filed e in
      inr (p, e, rw filed.0 at g)
]

-- In every state that two new connections reach over a network that loses, repeats and reorders
-- packets, while each schedules at most 65534 reliable packets: no reliable packet is lost. The
-- one that the left side scheduled as the n-th still waits with its payload at the sender, under
-- the id n, or it has arrived with its payload under that id.
pub reach_kept :
    {l r : NetAddress} {s : System}
    → Reach (init l r) s
    → (id : ℕ) → 0 < id
    → id ≤ length s.left.sent
    → Holds s.left.sent s.left.connection.outgoing.reliable_packets id
      ⊎ Holds s.left.sent s.right.connection.incoming.reliable_packets id
reach_kept {s} reach =
    let i = Reach-IsSound reach in Flows-Holds s.left s.right i.rightward i.leftward.tracks.valid

-- In every state that two new connections reach over a network that loses, repeats and reorders
-- packets, while each schedules at most 65534 reliable packets: either side can take in every
-- packet that is under way to it, so that no assertion fails and no loop runs on.
pub reach_received :
    {l r : NetAddress} {s : System} (p : Packet)
    → Reach (init l r) s
    → (In p s.left.wire → (d : Connection) × (received s.right.connection p ≡ ok d))
      × (In p s.right.wire → (d : Connection) × (received s.left.connection p ≡ ok d))
reach_received {s} p reach =
    let i = Reach-IsSound reach in
    (receivable s.left s.right i.rightward, receivable s.right s.left i.leftward)
  where
    receivable :
        (a b : Side) → Flows a b → In p a.wire → (d : Connection) × (received b.connection p ≡ ok d)
    receivable a b f under_way =
        let arrival = All-In (MayBe a.sent) p a.wire f.under_way under_way in
        let r = received-IsValid p f.tracks.valid (λ reliable. (arrival reliable).0) in (r.0, r.1)
