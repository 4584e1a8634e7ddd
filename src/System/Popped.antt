-- ===== src/System/Popped.antt =====
-- Single operations, as the sending side of a connection sees them.
use gio_net.Base.{
  ℕ, ◌≡◌, refl, sym, ◌∙◌, true, arith, none, some, List, [], ◌∷◌, ◌⊎◌, inl, inr, ◌==◌, Bool-cases,
  if◌then◌else◌, ok, ok_injective,
}
use mathlib.Core.Path.{subst}
use gio_net.Base.Map.{Map, insert, contains, find-insert}
use gio_net.Packet.{Packet, is_reliable}
use gio_net.Connection.{
  Connection, received, process_acks, add_ack_header, pop_ready_outgoing_packet,
  pop_next_ready_packet,
}
use gio_net.Connection.Ids.{IsId}
use gio_net.Connection.Invariant.{IsValid}
use gio_net.Connection.Received.{received_reliable, received_unreliable}

-- A pop takes the front of the queue, or finds nothing.
pub data Popped (c : Connection) : Type 0 where
  nothing : c.outgoing.ready_packets ≡ [] → pop_ready_outgoing_packet c ≡ (none, c) → Popped c
  front :
      (p : Packet) (ps : List Packet)
      → c.outgoing.ready_packets ≡ p ∷ ps
      → (let c1 = record c { outgoing = record c.outgoing { ready_packets = ps } } in
          pop_ready_outgoing_packet c ≡ (some (add_ack_header c1 p), c1))
      → Popped c

List-cases {ℓ} : {A : Type ℓ} (xs : List A) → (xs ≡ []) ⊎ ((x : A) × (ys : List A) × (xs ≡ x ∷ ys))
List-cases [] = inl refl
List-cases (x ∷ xs) = inr (x, xs, refl)

pub pop-Popped : (c : Connection) → Popped c
pop-Popped c = elim (List-cases c.outgoing.ready_packets) [
  | inl e ↦ nothing e (unfold pop_ready_outgoing_packet pop_next_ready_packet in rw e refl)
  | inr (p, ps, e) ↦
      front p ps e (unfold pop_ready_outgoing_packet pop_next_ready_packet in rw e refl)
]

-- `Received` does with the outgoing stream what `ProcessAcks` does.
pub received-outgoing :
    (c d : Connection) (p : Packet)
    → IsValid c
    → (is_reliable p ≡ true → IsId p.id)
    → received c p ≡ ok d
    → d.outgoing ≡ (process_acks c p).outgoing
received-outgoing c d p v arrival e = elim (Bool-cases (is_reliable p)) [
  | inl reliable ↦
      let (d1, e1, a) = received_reliable c p v reliable (arrival reliable) in
      subst (λ x. x.outgoing ≡ (process_acks c p).outgoing) (ok_injective (sym e1 ∙ e)) a.acked
  | inr plain ↦
      subst (λ x. x.outgoing ≡ (process_acks c p).outgoing)
        (ok_injective (sym (received_unreliable c p plain) ∙ e)) refl
]

pub contains-insert :
    (k j : ℕ) (p : Packet) (m : Map Packet)
    → contains j (insert k p m) ≡ (if k == j then true else contains j m)
unfolding contains
contains-insert k j p m = ground (arith, find-insert k j p m)
