-- ===== src/Connection/Delivery/Tracks.antt =====
-- The invariant of a history of arrivals and pops: what has been taken and what is ready is one
-- chain.
use mathlib.Core.Path.{subst}
use gio_net.Base.{
  ℕ, ◌≡◌, refl, sym, ap, ◌∙◌, true, false, arith, some, List, [], ◌∷◌, ◌++◌, All, All-append,
  filter, filter-append, append_assoc, append-nil, Bool-cases, inl, inr, ok, ok_injective, ◌==◌,
}
use gio_net.Base.Map.{Map, find, insert}
use gio_net.Packet.{Packet, is_reliable}
use gio_net.Connection.{
  Connection, received, pop_ready_incoming_packet, pop_next_ready_packet, next_expected,
}
use gio_net.Connection.Enqueue.{Run, Delivers}
use gio_net.Connection.Ids.{IsId}
use gio_net.Connection.Invariant.{IsValid, IsFiled, insert-IsFiled, pop_incoming-IsValid}
use gio_net.Connection.Acks.{to_list}
use gio_net.Connection.Received.{
  Accepted, filed, received_reliable, received_unreliable, Accepted-IsValid,
  received_unreliable-IsValid,
}
use gio_net.Connection.Delivery.{Event, arrives, pops, step, run}
use gio_net.Connection.Delivery.Chain.{Chain, Chain-append, Run-Chain}

-- The reliable packets that have been taken or are ready.
abbrev pub reliable_of : List Packet → Connection → List Packet
reliable_of log c = filter is_reliable (log ++ c.incoming.ready_packets)

module _ {κ} (P : Packet → Type κ) where
  pub All-insert :
      (k : ℕ) (p : Packet) (m : Map Packet)
      → P p
      → All (λ (e : ℕ × Packet). P e.1) m
      → All (λ (e : ℕ × Packet). P e.1) (insert k p m)
  unfolding insert
  All-insert k p [] h a = (h, tt)
  All-insert k p ((j, q) ∷ m) h a = elim (Bool-cases (j == k)) [
    | inl here ↦ rw here (h, a.1)
    | inr there ↦ rw there (a.0, All-insert k p m h a.1)
  ]

  pub All-find :
      (k : ℕ) (p : Packet) (m : Map Packet)
      → All (λ (e : ℕ × Packet). P e.1) m
      → find k m ≡ some p
      → P p
  unfolding find
  All-find k p [] a h = cc
  All-find k p ((j, q) ∷ m) a h = elim (Bool-cases (j == k)) [
    | inl here ↦ let e : q ≡ p = ground arith in subst P e a.0
    | inr there ↦ All-find k p m a.1 (ground arith)
  ]

  All-Run :
      (m : Map Packet) (from to : ℕ) (ps : List Packet)
      → All (λ (e : ℕ × Packet). P e.1) m
      → Run m from ps to
      → All P (filter is_reliable ps)
  All-Run m from to [] a r = tt
  All-Run m from to (p ∷ ps) a r = elim (Bool-cases (is_reliable p)) [
    | inl reliable ↦
        rw reliable
          (All-find (next_expected from) p m a r.0, All-Run m (next_expected from) to ps a r.1)
    | inr plain ↦ rw plain (All-Run m (next_expected from) to ps a r.1)
  ]

-- The receiver at some point of a history that began at the sequence number `start`: what has
-- been taken and what is ready form one chain, and every reliable packet is one that may arrive.
pub record Tracks {κ} (P : Packet → Type κ) (start : ℕ) (c : Connection) (log : List Packet)
    : Type κ where
  pub valid : IsValid c
  pub chained : Chain start (reliable_of log c) c.incoming.sequence_number
  pub genuine_filed : All (λ (e : ℕ × Packet). P e.1) c.incoming.reliable_packets
  pub genuine : All P (reliable_of log c)

-- What may arrive: an unreliable packet, or a reliable one with an id, of which P holds.
abbrev pub MayArrive {κ} : (Packet → Type κ) → Event → Type κ
MayArrive P (arrives p) = is_reliable p ≡ true → IsId p.id × P p
MayArrive P pops = Unit

-- The queue is what is taken, followed by what is left.
pub pop_lem :
    (c : Connection)
    → let (popped, d) = pop_ready_incoming_packet c in
      (to_list popped ++ d.incoming.ready_packets ≡ c.incoming.ready_packets)
      × (d.incoming.sequence_number ≡ c.incoming.sequence_number)
      × (d.incoming.reliable_packets ≡ c.incoming.reliable_packets)
unfolding pop_ready_incoming_packet pop_next_ready_packet
pop_lem c = ground arith

module _ {κ} (P : Packet → Type κ) (start : ℕ) (c : Connection) (log : List Packet) where
  -- A reliable packet is filed, and a run of packets becomes ready.
  pub delivered-Tracks :
      (p : Packet) (d : Connection) (latest : ℕ)
      → Tracks P start c log
      → is_reliable p ≡ true
      → IsId p.id
      → P p
      → IsValid d
      → Delivers latest (filed p c.incoming) d.incoming
      → Tracks P start d log
  delivered-Tracks p d latest t reliable id h valid delivers = record {
    valid = valid;
    chained = rw split (
        Chain-append start c.incoming.sequence_number _ (reliable_of log c) _ t.chained
          (Run-Chain _ _ _ delivers.run all_filed delivers.in_order));
    genuine_filed =
        rw delivers.same_map (All-insert P p.id p c.incoming.reliable_packets h t.genuine_filed);
    genuine = rw split (
        All-append P (reliable_of log c) _ t.genuine (
          All-Run P _ _ _ delivers.run
            (All-insert P p.id p c.incoming.reliable_packets h t.genuine_filed) delivers.in_order));
  }
    where
      all_filed : All IsFiled (insert p.id p c.incoming.reliable_packets)
      all_filed =
          insert-IsFiled p.id p c.incoming.reliable_packets (refl, (reliable, id)) t.valid.arrived

      split : reliable_of log d ≡ reliable_of log c ++ filter is_reliable delivers.run
      split =
          ap (λ r. filter is_reliable (log ++ r)) delivers.queued
          ∙ ap (filter is_reliable) (sym (append_assoc log c.incoming.ready_packets delivers.run))
          ∙ filter-append is_reliable (log ++ c.incoming.ready_packets) delivers.run

  Accepted-Tracks :
      (p : Packet) (d : Connection)
      → Tracks P start c log
      → is_reliable p ≡ true
      → IsId p.id
      → P p
      → Accepted c p d
      → Tracks P start d log
  Accepted-Tracks p d t reliable id h a =
      delivered-Tracks p d _ t reliable id h (Accepted-IsValid p d t.valid reliable id a) a.delivers

  -- An unreliable packet that is pushed to the queue changes neither the chain nor the map.
  pub pushed-Tracks :
      (p : Packet) (d : Connection)
      → Tracks P start c log
      → is_reliable p ≡ false
      → IsValid d
      → d.incoming ≡ record c.incoming { ready_packets = c.incoming.ready_packets ++ (p ∷ []) }
      → Tracks P start d log
  pushed-Tracks p d t plain valid pushed = record {
    valid = valid;
    chained = rw (pushed, unchanged) t.chained;
    genuine_filed = rw pushed t.genuine_filed;
    genuine = rw (pushed, unchanged) t.genuine;
  }
    where
      dropped : filter is_reliable (p ∷ []) ≡ []
      dropped = rw plain

      unchanged :
          filter is_reliable (log ++ (c.incoming.ready_packets ++ (p ∷ []))) ≡ reliable_of log c
      unchanged =
          rw
            (
              ← append_assoc log c.incoming.ready_packets (p ∷ []),
              filter-append is_reliable (log ++ c.incoming.ready_packets) (p ∷ []),
              dropped,
            )
            (append-nil (reliable_of log c))

  plain-Tracks :
      (p : Packet)
      → Tracks P start c log
      → is_reliable p ≡ false
      → (d : Connection) × (received c p ≡ ok d) × Tracks P start d log
  plain-Tracks p t plain =
      let (d, e, valid) = received_unreliable-IsValid p t.valid plain in
      let same = ok_injective (sym e ∙ received_unreliable c p plain) in
      (d, e, pushed-Tracks p d t plain valid (ap (λ (x : Connection). x.incoming) same))

  pub arrives-Tracks :
      (p : Packet)
      → Tracks P start c log
      → MayArrive P (arrives p)
      → (d : Connection) × (received c p ≡ ok d) × Tracks P start d log
  arrives-Tracks p t may = elim (Bool-cases (is_reliable p)) [
    | inl reliable ↦
        let h = may reliable in
        let r = received_reliable c p t.valid reliable h.0 in
        (r.0, r.1, Accepted-Tracks p r.0 t reliable h.0 h.1 r.2)
    | inr plain ↦ plain-Tracks p t plain
  ]

  -- What is taken moves from the front of the queue to the end of the log.
  pub pops-Tracks :
      Tracks P start c log
      → let (popped, d) = pop_ready_incoming_packet c in Tracks P start d (log ++ to_list popped)
  pops-Tracks t =
      let moved = pop_lem c in
      record {
        valid = pop_incoming-IsValid t.valid;
        chained = rw (moved.1, same_list) t.chained;
        genuine_filed = rw moved.2 t.genuine_filed;
        genuine = rw same_list t.genuine;
      }
    where
      same_list :
          let (popped, d) = pop_ready_incoming_packet c in
          reliable_of (log ++ to_list popped) d ≡ reliable_of log c
      same_list =
          rw (append_assoc log (to_list (pop_ready_incoming_packet c).0) _, (pop_lem c).0) refl

pub history-Tracks {κ} :
    (P : Packet → Type κ) (start : ℕ) (c : Connection) (log : List Packet) (es : List Event)
    → Tracks P start c log
    → All (MayArrive P) es
    → (r : Connection × List Packet) × (run c log es ≡ ok r) × Tracks P start r.0 r.1
unfolding run step
history-Tracks P start c log [] t may = ((c, log), refl, t)
history-Tracks P start c log (arrives p ∷ es) t may =
    let d = arrives-Tracks P start c log p t may.0 in
    let rest = history-Tracks P start d.0 log es d.2 may.1 in (rest.0, rw d.1 rest.1, rest.2)
history-Tracks P start c log (pops ∷ es) t may =
    history-Tracks P start _ _ es (pops-Tracks P start c log t) may.1
