-- ===== src/Connection/Acks/Bitset.antt =====
-- `AddAckHeader`: bit i is on exactly when the packet i + 1 behind the ack id has been received.
use gio_net.Base.{ℕ, ◌≡◌, ◌<◌, refl, Bool, arith, ◌^◌, bit_or, if◌then◌else◌}
use gio_net.Packet.{Packet}
use gio_net.Connection.{Connection, add_ack_header, ack_bits, has_received_packet}
use gio_net.Connection.Acks.{behind, test_bit}

abbrev set_bit : ℕ → Bool → ℕ → ℕ
set_bit i b w = if b then bit_or w (2 ^ i) else w

abbrev bitset_of : Bool → Bool → Bool → Bool → ℕ
bitset_of b0 b1 b2 b3 = set_bit 3 b3 (set_bit 2 b2 (set_bit 1 b1 (set_bit 0 b0 0)))

test_bit-bitset_of :
    (b0 b1 b2 b3 : Bool)
    → let w = bitset_of b0 b1 b2 b3 in
      (test_bit 0 w ≡ b0) × (test_bit 1 w ≡ b1) × (test_bit 2 w ≡ b2) × (test_bit 3 w ≡ b3)
test_bit-bitset_of b0 b1 b2 b3 = ground arith

bitset-lt : (b0 b1 b2 b3 : Bool) → bitset_of b0 b1 b2 b3 < 16
bitset-lt b0 b1 b2 b3 = ground arith

ack_bits_lem :
    (ack : ℕ) (c : Connection)
    → ack_bits 4 0 ack c 0
      ≡ bitset_of
          (has_received_packet c (behind 1 ack))
          (has_received_packet c (behind 2 ack))
          (has_received_packet c (behind 3 ack))
          (has_received_packet c (behind 4 ack))
unfolding ack_bits
ack_bits_lem ack c = refl

-- The header holds the current ack id, and its bits 0 to 3 say of the four ids behind it which
-- have been received; no other bit is on. The rest of the packet stays as it is.
pub add_ack_header_lem :
    (c : Connection) (p : Packet)
    → let q = add_ack_header c p in
      let received = λ (n : ℕ). has_received_packet c (behind n c.current_ack_id) in
      (q.ack_id ≡ c.current_ack_id)
      × (test_bit 0 q.ack_bitset ≡ received 1)
      × (test_bit 1 q.ack_bitset ≡ received 2)
      × (test_bit 2 q.ack_bitset ≡ received 3)
      × (test_bit 3 q.ack_bitset ≡ received 4)
      × (q.ack_bitset < 16)
      × (q.header ≡ p.header)
      × (q.id ≡ p.id)
      × (q.payload ≡ p.payload)
unfolding add_ack_header
add_ack_header_lem c p =
    let received = λ (n : ℕ). has_received_packet c (behind n c.current_ack_id) in
    let t = test_bit-bitset_of (received 1) (received 2) (received 3) (received 4) in
    rw (ack_bits_lem c.current_ack_id c) (
      refl,
      t.0,
      t.1,
      t.2,
      t.3,
      bitset-lt (received 1) (received 2) (received 3) (received 4),
      refl,
      refl,
      refl,
    )
