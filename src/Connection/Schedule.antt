-- ===== src/Connection/Schedule.antt =====
-- Many calls of `Schedule` in a row: the ids that go out, and what is kept until it is acked.
use mathlib.Core.Path.{subst}
use gio_net.Base.{
  ℕ, suc, ◌≡◌, ◌≢◌, ◌≤◌, ◌<◌, refl, sym, ap, ◌∙◌, true, false, arith, some, List, [], ◌∷◌, ◌++◌,
  append_assoc, append-nil, if◌then◌else◌, All, length, filter, Bool-cases, inl, inr,
}
use gio_net.Base.Map.{find, insert, find-insert}
use gio_net.Packet.{Packet, is_reliable}
use gio_net.Connection.{Connection, schedule, next_expected}
use gio_net.Connection.Ids.{nth_id, nth_id_distinct, next_expected-IsId, get_index_lem}
use gio_net.Connection.Delivery.Chain.{Chain}

pub schedule_all : Connection → List Packet → Connection
schedule_all c [] = c
schedule_all c (p ∷ ps) = schedule_all (schedule c p) ps

-- The packets as they go out: the reliable ones get the ids that follow `from`.
pub numbered : ℕ → List Packet → List Packet
numbered from [] = []
numbered from (p ∷ ps) =
    if is_reliable p
    then record p { id = next_expected from } ∷ numbered (next_expected from) ps
    else p ∷ numbered from ps

-- The sequence number behind them.
pub last_id : ℕ → List Packet → ℕ
last_id from [] = from
last_id from (p ∷ ps) = last_id (if is_reliable p then next_expected from else from) ps

pub schedule_reliable :
    (c : Connection) (p : Packet)
    → c.outgoing.sequence_number < 65536
    → is_reliable p ≡ true
    → let next = next_expected c.outgoing.sequence_number in
      let q = record p { id = next } in
      schedule c p ≡ record c {
        outgoing = record {
          reliable_packets = insert next q c.outgoing.reliable_packets;
          ready_packets = c.outgoing.ready_packets ++ (q ∷ []);
          sequence_number = next;
        };
      }
unfolding schedule
schedule_reliable c p h reliable = rw (reliable, get_index_lem c h) refl

pub schedule_unreliable :
    (c : Connection) (p : Packet)
    → is_reliable p ≡ false
    → schedule c p ≡ record c {
      outgoing = record c.outgoing { ready_packets = c.outgoing.ready_packets ++ (p ∷ []) };
    }
unfolding schedule
schedule_unreliable c p plain = rw plain refl

-- The queue grows by the numbered packets, in the order of the calls, and the sequence number
-- moves on.
schedule_all-queue :
    (c : Connection) (ps : List Packet)
    → c.outgoing.sequence_number < 65536
    → let d = schedule_all c ps in
      (d.outgoing.ready_packets
        ≡ c.outgoing.ready_packets ++ numbered c.outgoing.sequence_number ps)
      × (d.outgoing.sequence_number ≡ last_id c.outgoing.sequence_number ps)
unfolding schedule_all numbered last_id
schedule_all-queue c [] h = (sym (append-nil c.outgoing.ready_packets), refl)
schedule_all-queue c (p ∷ ps) h = elim (Bool-cases (is_reliable p)) [
  | inl reliable ↦
      let next = next_expected c.outgoing.sequence_number in
      let q = record p { id = next } in
      let rest =
        schedule_all-queue (schedule c p) ps (
          rw (schedule_reliable c p h reliable)
            (next_expected-IsId c.outgoing.sequence_number).1) in
      rw reliable (
        rest.0
            ∙ rw (schedule_reliable c p h reliable)
                (append_assoc c.outgoing.ready_packets (q ∷ []) _),
        rest.1 ∙ rw (schedule_reliable c p h reliable) refl,
      )
  | inr plain ↦
      let rest = schedule_all-queue (schedule c p) ps (rw (schedule_unreliable c p plain) h) in
      rw plain (
        rest.0
            ∙ rw (schedule_unreliable c p plain) (append_assoc c.outgoing.ready_packets (p ∷ []) _),
        rest.1 ∙ rw (schedule_unreliable c p plain) refl,
      )
]

numbered-Chain :
    (from : ℕ) (ps : List Packet)
    → Chain from (filter is_reliable (numbered from ps)) (last_id from ps)
unfolding numbered last_id is_reliable
numbered-Chain from [] = refl
numbered-Chain from (p ∷ ps) = elim (Bool-cases (is_reliable p)) [
  | inl reliable ↦ rw (reliable, reliable) (refl, numbered-Chain (next_expected from) ps)
  | inr plain ↦ rw (plain, plain) (numbered-Chain from ps)
]

-- An id that none of the calls gives out keeps its entry.
find-schedule_all :
    (c : Connection) (ps : List Packet) (k : ℕ)
    → c.outgoing.sequence_number < 65536
    → ((j : ℕ) → j < length ps → nth_id c.outgoing.sequence_number (suc j) ≢ k)
    → find k (schedule_all c ps).outgoing.reliable_packets ≡ find k c.outgoing.reliable_packets
unfolding schedule_all nth_id
find-schedule_all c [] k h other = refl
find-schedule_all c (p ∷ ps) k h other = elim (Bool-cases (is_reliable p)) [
  | inl reliable ↦
      let next = next_expected c.outgoing.sequence_number in
      let e = schedule_reliable c p h reliable in
      let ne : next ≢ k = other 0 (omega arith) in
      find-schedule_all (schedule c p) ps k (rw e (next_expected-IsId c.outgoing.sequence_number).1)
        (λ j lt. rw e (other (suc j) (omega arith)))
      ∙ rw e
          (ground (arith, find-insert next k (record p { id = next }) c.outgoing.reliable_packets))
  | inr plain ↦
      let e = schedule_unreliable c p plain in
      find-schedule_all (schedule c p) ps k (rw e h) (λ j lt. rw e (other j (omega arith)))
      ∙ rw e refl
]

-- A reliable packet is kept under its id until it is acked.
abbrev pub IsKept : Connection → Packet → Type 0
IsKept c q = is_reliable q ≡ true → find q.id c.outgoing.reliable_packets ≡ some q

schedule_all-IsKept :
    (c : Connection) (ps : List Packet)
    → c.outgoing.sequence_number < 65536
    → length ps ≤ 65535
    → All (IsKept (schedule_all c ps)) (numbered c.outgoing.sequence_number ps)
unfolding schedule_all numbered nth_id
schedule_all-IsKept c [] h le = tt
schedule_all-IsKept c (p ∷ ps) h le = elim (Bool-cases (is_reliable p)) [
  | inl reliable ↦
      let seq = c.outgoing.sequence_number in
      let next = next_expected seq in
      let q = record p { id = next } in
      let e = schedule_reliable c p h reliable in
      let id = next_expected-IsId seq in
      let others = find-schedule_all (schedule c p) ps next (rw e id.1) (λ j lt same.
        nth_id_distinct seq 0 (suc j) h (omega arith) (omega arith) (sym (rw e at same))) in
      rw reliable (
        (λ _. others ∙ rw e (ground (arith, find-insert next next q c.outgoing.reliable_packets))),
        subst (λ from. All (IsKept (schedule_all (schedule c p) ps)) (numbered from ps))
            (ap (λ (d : Connection). d.outgoing.sequence_number) e)
            (schedule_all-IsKept (schedule c p) ps (rw e id.1) (omega arith)),
      )
  | inr plain ↦
      let e = schedule_unreliable c p plain in
      rw plain (
        (λ reliable. cc),
        subst (λ from. All (IsKept (schedule_all (schedule c p) ps)) (numbered from ps))
            (ap (λ (d : Connection). d.outgoing.sequence_number) e)
            (schedule_all-IsKept (schedule c p) ps (rw e h) (omega arith)),
      )
]

-- From a 16-bit sequence number, any number of calls queue their packets in order, the reliable
-- ones with the ids that follow the sequence number one after the other; and for up to 65535
-- calls each reliable packet is kept, as it was queued, under its id.
pub schedule_all_lem :
    (c : Connection) (ps : List Packet)
    → c.outgoing.sequence_number < 65536
    → let d = schedule_all c ps in
      let out = numbered c.outgoing.sequence_number ps in
      (d.outgoing.ready_packets ≡ c.outgoing.ready_packets ++ out)
      × Chain c.outgoing.sequence_number (filter is_reliable out) d.outgoing.sequence_number
      × (length ps ≤ 65535 → All (IsKept d) out)
schedule_all_lem c ps h =
    let q = schedule_all-queue c ps h in
    (
      q.0,
      rw q.1 (numbered-Chain c.outgoing.sequence_number ps),
      λ le. schedule_all-IsKept c ps h le,
    )
