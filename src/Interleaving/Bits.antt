-- ===== src/Interleaving/Bits.antt =====
-- A round of the loop of `AddAckHeader`: the header gains one bit at most, and that is true.
use gio_net.Base.{
  ℕ, zero, suc, ◌+◌, ◌≡◌, ◌<◌, refl, Bool, true, not, ◌||◌, ◌&&◌, arith, ◌^◌, bit_or, ltb, ◌==◌,
  ◌⊎◌, inl, inr, Bool-cases, u16,
}
use gio_net.Packet.{Packet}
use gio_net.Connection.{Connection, ack_bits, has_received_packet}
use gio_net.System.Flows.{IsSound}
use gio_net.Connection.Acks.{test_bit, acknowledges, behind}

all_below : ℕ → (ℕ → Bool) → Bool
all_below zero f = true
all_below (suc n) f = f n && all_below n f

all_below_lem : (n : ℕ) (f : ℕ → Bool) (w : ℕ) → all_below n f ≡ true → w < n → f w ≡ true
unfolding all_below
all_below_lem zero f w h lt = absurd (omega arith)
all_below_lem (suc n) f w h lt = elim (Bool-cases (w == n)) [
  | inl here ↦ let e : w ≡ n = ground arith in rw e (ground arith)
  | inr there ↦ all_below_lem n f w (ground arith) (ground arith)
]

implies : Bool → Bool → Bool
implies a b = not a || b

-- Of the four bits of a header only the i-th may come on.
gains : ℕ → ℕ → Bool
gains i w =
    let v = bit_or w (2 ^ i) in
    ltb v 16
    && implies (test_bit 0 v) (test_bit 0 w || i == 0)
    && implies (test_bit 1 v) (test_bit 1 w || i == 1)
    && implies (test_bit 2 v) (test_bit 2 w || i == 2)
    && implies (test_bit 3 v) (test_bit 3 w || i == 3)

gains_lem : (i w : ℕ) → i < 4 → w < 16 → gains i w ≡ true
unfolding all_below gains implies
gains_lem i w h k =
    all_below_lem 16 (gains i) w (all_below_lem 4 (λ j. all_below 16 (gains j)) i refl h) k

-- A bit stands for the id so far behind the ack id.
abbrev pub acks_at : Packet → ℕ → ℕ → Bool
acks_at p i id = behind (i + 1) p.ack_id == id

gains-lt : (w i : ℕ) → i < 4 → w < 16 → bit_or w (2 ^ i) < 16
unfolding gains implies
gains-lt w i h k = ground (arith, gains_lem i w h k)

acknowledges-gains :
    (p : Packet) (i id : ℕ)
    → i < 4
    → p.ack_bitset < 16
    → acknowledges (record p { ack_bitset = bit_or p.ack_bitset (2 ^ i) }) id ≡ true
    → (acknowledges p id ≡ true) ⊎ (acks_at p i id ≡ true)
unfolding gains implies
acknowledges-gains p i id h k a = ground (arith, gains_lem i p.ack_bitset h k)

-- A header without bits is as sound as its ack id.
pub IsSound-bare :
    (c : Connection) (p : Packet)
    → p.ack_bitset ≡ 0
    → (p.ack_id ≡ 0) ⊎ (has_received_packet c p.ack_id ≡ true)
    → IsSound c p
IsSound-bare c p bare h id a =
    let alone = rw bare at a in let same : p.ack_id ≡ id = ground arith in rw same at h

-- A round keeps a header sound.
pub ack_bits-IsSound :
    (c : Connection) (p : Packet) (i : ℕ)
    → i < 4
    → p.ack_bitset < 16
    → IsSound c p
    → let w = ack_bits 1 i p.ack_id c p.ack_bitset in
      (w < 16) × IsSound c (record p { ack_bitset = w })
unfolding ack_bits
ack_bits-IsSound c p i h k s =
    let e : u16 (u16 i + 1) ≡ i + 1 = omega arith in
    elim (Bool-cases (has_received_packet c (behind (i + 1) p.ack_id))) [
      | inl there ↦
          rw (e, there)
            (
              gains-lt p.ack_bitset i h k,
              λ id a. elim (acknowledges-gains p i id h k a) [
                | inl old ↦ s id old
                | inr new ↦
                    let same : behind (i + 1) p.ack_id ≡ id = ground arith in inr (rw same at there)
              ],
            )
      | inr missing ↦ rw (e, missing) (k, s)
    ]
