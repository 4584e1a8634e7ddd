-- ===== src/Connection/Enqueue.antt =====
-- `EnqueueProcessablePackets`: the loop ends, and moves a run of consecutive packets to the
-- queue.
use gio_net.Base.{
  ℕ, zero, suc, ◌+◌, ◌≤◌, ◌<◌, ◌≡◌, refl, sym, ◌∙◌, arith, true, Bool-cases, Option-cases, inl, inr,
  ◌⊎◌, ◌==◌, ==_iff, none, some, List, [], ◌∷◌, ◌++◌, append_assoc, append-nil, ok, length,
}
use gio_net.Base.Map.{Map, find}
use gio_net.Packet.{Packet}
use gio_net.Connection.{
  PacketStream, Connection, next_expected, enqueue_loop, enqueue_processable_packets, enqueue_fuel,
}
use gio_net.Connection.Ids.{IsId, next_expected-IsId, gap, gap-lt, gap-next_expected}

-- The packets lie in the map under the ids that follow `from`, up to `to`.
abbrev pub Run : Map Packet → ℕ → List Packet → ℕ → Type 0
Run m from [] to = from ≡ to
Run m from (p ∷ ps) to = (find (next_expected from) m ≡ some p) × Run m (next_expected from) ps to

-- What the loop does to the stream: a run of packets goes to the end of the queue, and the run
-- stops at the latest id or in front of a packet that is missing, and never passes the latest id.
pub record Delivers (latest : ℕ) (s t : PacketStream) : Type 0 where
  pub run : List Packet
  pub same_map : t.reliable_packets ≡ s.reliable_packets
  pub queued : t.ready_packets ≡ s.ready_packets ++ run
  pub in_order : Run s.reliable_packets s.sequence_number run t.sequence_number
  pub stops :
      (t.sequence_number ≡ latest)
      ⊎ (find (next_expected t.sequence_number) s.reliable_packets ≡ none)
  pub within : length run ≤ gap s.sequence_number latest

Delivers-step :
    (latest : ℕ) (s t : PacketStream) (p : Packet)
    → find (next_expected s.sequence_number) s.reliable_packets ≡ some p
    → Delivers latest
        (record s {
          sequence_number = next_expected s.sequence_number;
          ready_packets = s.ready_packets ++ (p ∷ []);
        })
        t
    → gap (next_expected s.sequence_number) latest + 1 ≡ gap s.sequence_number latest
    → Delivers latest s t
Delivers-step latest s t p found d closer = record {
  run = p ∷ d.run;
  same_map = d.same_map;
  queued = d.queued ∙ append_assoc s.ready_packets (p ∷ []) d.run;
  in_order = (found, d.in_order);
  stops = d.stops;
  within = omega (arith, d.within);
}

pub enqueue_loop-Delivers :
    (fuel latest : ℕ) (s : PacketStream)
    → s.sequence_number < 65536
    → IsId latest
    → gap s.sequence_number latest < fuel
    → (t : PacketStream) × (enqueue_loop fuel s.sequence_number latest s ≡ ok t)
      × Delivers latest s t
unfolding enqueue_loop
enqueue_loop-Delivers zero latest s h k lt = absurd (omega arith)
enqueue_loop-Delivers (suc fuel) latest s h k lt = elim (Bool-cases (s.sequence_number == latest)) [
  | inl done ↦ (s, rw (done, enqueue_loop), at_end done)
  | inr more ↦ elim (Option-cases (find (next_expected s.sequence_number) s.reliable_packets)) [
    | inl missing ↦ (s, rw (more, missing, enqueue_loop), at_gap missing)
    | inr (p, found) ↦
        let s1 : PacketStream = record s {
          sequence_number = next_expected s.sequence_number;
          ready_packets = s.ready_packets ++ (p ∷ []);
        } in
        let closer = gap-next_expected s.sequence_number latest h k (ground arith) in
        let rest =
          enqueue_loop-Delivers fuel latest s1 (next_expected-IsId s.sequence_number).1 k
            (omega arith) in
        (
          rest.0,
          rw (more, found, enqueue_loop) rest.1,
          Delivers-step latest s rest.0 p found rest.2 closer,
        )
  ]
]
  where
    at_end : (s.sequence_number == latest) ≡ true → Delivers latest s s
    at_end done = record {
      run = [];
      same_map = refl;
      queued = sym (append-nil s.ready_packets);
      in_order = refl;
      stops = inl ((==_iff _ _).0 done);
      within = omega arith;
    }

    at_gap : find (next_expected s.sequence_number) s.reliable_packets ≡ none → Delivers latest s s
    at_gap missing = record {
      run = [];
      same_map = refl;
      queued = sym (append-nil s.ready_packets);
      in_order = refl;
      stops = inr missing;
      within = omega arith;
    }

-- From a valid sequence number and a valid latest id the loop ends within its fuel, and all that
-- it does is to move a run of packets to the queue.
pub enqueue_processable_packets-Delivers :
    (c : Connection)
    → c.incoming.sequence_number < 65536
    → IsId c.current_ack_id
    → (t : PacketStream) × (enqueue_processable_packets c ≡ ok (record c { incoming = t }))
      × Delivers c.current_ack_id c.incoming t
unfolding enqueue_processable_packets
enqueue_processable_packets-Delivers c h k =
    let looped =
      enqueue_loop-Delivers enqueue_fuel c.current_ack_id c.incoming h k
        (gap-lt c.incoming.sequence_number c.current_ack_id h k.1) in
    (looped.0, rw (looped.1) refl, looped.2)

-- A run from an id ends at an id.
pub Run-lt :
    (m : Map Packet) (from : ℕ) (ps : List Packet) (to : ℕ)
    → Run m from ps to
    → from < 65536
    → to < 65536
Run-lt m from [] to r h = rw (← r) h
Run-lt m from (p ∷ ps) to r h = Run-lt m (next_expected from) ps to r.1 (next_expected-IsId from).1
