-- ===== src/System/Genuine.antt =====
-- Packets that carry what was sent under their id, and the operations that keep them so.
use gio_net.Base.{
  ℕ, zero, suc, ◌+◌, ◌-◌, ◌≡◌, ◌<◌, refl, true, arith, Option, none, some, List, [], ◌∷◌, ◌++◌, All,
  All-append, length, Bool-cases, Option-cases, inl, inr, ◌==◌,
}
use mathlib.Core.Path.{subst}
use gio_net.Base.Map.{Map, find, erase}
use gio_net.Buffer.{Buffer}
use gio_net.Packet.{Packet, is_reliable}
use gio_net.Connection.{Connection, process_acks, process_bits, packet_acked, reschedule_packet}
use gio_net.Connection.Ids.{IsId}
use gio_net.Connection.Acks.{behind, test_bit}
use gio_net.Connection.Delivery.Tracks.{All-find}
use gio_net.System.{In, remove}

abbrev pub get_elem? {ℓ} : {A : Type ℓ} → List A → ℕ → Option A
get_elem? [] i = none
get_elem? (x ∷ xs) zero = some x
get_elem? (x ∷ xs) (suc i) = get_elem? xs i

-- The n-th of the payloads sent bears the id n, counted from 1.
abbrev pub IsGenuine : List Buffer → Packet → Type 0
IsGenuine sent p = get_elem? sent (p.id - 1) ≡ some p.payload

-- Of a packet that is reliable: it bears an id, and the payload that was sent under it.
abbrev pub MayBe : List Buffer → Packet → Type 0
MayBe sent p = is_reliable p ≡ true → IsId p.id × IsGenuine sent p

abbrev pub OfEntry : (Packet → Type 0) → ℕ × Packet → Type 0
OfEntry P e = P e.1

pub get_elem?-append :
    (xs ys : List Buffer) (i : ℕ) (b : Buffer)
    → get_elem? xs i ≡ some b
    → get_elem? (xs ++ ys) i ≡ some b
get_elem?-append [] ys i b h = cc
get_elem?-append (x ∷ xs) ys zero b h = h
get_elem?-append (x ∷ xs) ys (suc i) b h = get_elem?-append xs ys i b h

pub get_elem?-last :
    (xs : List Buffer) (b : Buffer) → get_elem? (xs ++ (b ∷ [])) (length xs) ≡ some b
get_elem?-last [] b = refl
get_elem?-last (x ∷ xs) b = get_elem?-last xs b

pub get_elem?-lt : (xs : List Buffer) (i : ℕ) (b : Buffer) → get_elem? xs i ≡ some b → i < length xs
get_elem?-lt [] i b h = cc
get_elem?-lt (x ∷ xs) zero b h = omega arith
get_elem?-lt (x ∷ xs) (suc i) b h = omega (arith, get_elem?-lt xs i b h)

pub MayBe-append : (sent more : List Buffer) (p : Packet) → MayBe sent p → MayBe (sent ++ more) p
MayBe-append sent more p h reliable =
    let g = h reliable in (g.0, get_elem?-append sent more (p.id - 1) p.payload g.1)

pub All-weaken {ℓ κ κ'} :
    {A : Type ℓ} (P : A → Type κ) (Q : A → Type κ')
    → ((x : A) → P x → Q x)
    → (xs : List A) → All P xs
    → All Q xs
All-weaken P Q f [] a = tt
All-weaken P Q f (x ∷ xs) a = (f x a.0, All-weaken P Q f xs a.1)

pub All-In {κ} : {A : Type 0} (P : A → Type κ) (x : A) (xs : List A) → All P xs → In x xs → P x
All-In P x [] a i = absurd i
All-In P x (y ∷ ys) a (inl e) = subst P e a.0
All-In P x (y ∷ ys) a (inr i) = All-In P x ys a.1 i

pub All-remove {ℓ κ} :
    {A : Type ℓ} (P : A → Type κ) (n : ℕ) (xs : List A) → All P xs → All P (remove n xs)
All-remove P n [] a = tt
All-remove P zero (x ∷ xs) a = a.1
All-remove P (suc n) (x ∷ xs) a = (a.0, All-remove P n xs a.1)

module _ (P : Packet → Type 0) where
  All-erase : (k : ℕ) (m : Map Packet) → All (OfEntry P) m → All (OfEntry P) (erase k m)
  unfolding erase
  All-erase k [] a = tt
  All-erase k ((j, q) ∷ m) a = elim (Bool-cases (j == k)) [
    | inl here ↦ rw here (All-erase k m a.1)
    | inr there ↦ rw there (a.0, All-erase k m a.1)
  ]

  -- Of every packet that waits for its ack or in the queue.
  pub record Outgoing (c : Connection) : Type 0 where
    pub waiting : All (OfEntry P) c.outgoing.reliable_packets
    pub queue : All P c.outgoing.ready_packets

  reschedule-Outgoing : (id : ℕ) (c : Connection) → Outgoing c → Outgoing (reschedule_packet id c)
  unfolding reschedule_packet
  reschedule-Outgoing id c o = elim (Option-cases (find id c.outgoing.reliable_packets)) [
    | inl absent ↦ rw absent o
    | inr (p, found) ↦
        let h = All-find P id p c.outgoing.reliable_packets o.waiting found in
        rw found (record {
          waiting = o.waiting;
          queue = All-append P c.outgoing.ready_packets (p ∷ []) o.queue (h, tt);
        })
  ]

  pub acked-Outgoing : (id : ℕ) (c : Connection) → Outgoing c → Outgoing (packet_acked id c)
  unfolding packet_acked
  acked-Outgoing id c o = record {
    waiting = All-erase id c.outgoing.reliable_packets o.waiting;
    queue = o.queue;
  }

  pub process_bits-Outgoing :
      (rounds i bitset from : ℕ) (c : Connection)
      → Outgoing c
      → Outgoing (process_bits rounds i bitset from c)
  unfolding process_bits
  process_bits-Outgoing zero i bitset from c o = o
  process_bits-Outgoing (suc rounds) i bitset from c o = elim (Bool-cases (test_bit i bitset)) [
    | inl on ↦ rw on (
        process_bits-Outgoing rounds (i + 1) bitset (behind 1 from) _
          (acked-Outgoing (behind 1 from) c o))
    | inr off ↦ rw off (
        process_bits-Outgoing rounds (i + 1) bitset (behind 1 from) _
          (reschedule-Outgoing (behind 1 from) c o))
  ]

  -- Acks keep what holds of all packets that go out.
  pub process_acks-Outgoing :
      (c : Connection) (p : Packet) → Outgoing c → Outgoing (process_acks c p)
  process_acks-Outgoing c p o =
      unfold process_acks in
      process_bits-Outgoing 4 0 p.ack_bitset p.ack_id _ (acked-Outgoing p.ack_id c o)
