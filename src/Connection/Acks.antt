-- ===== src/Connection/Acks.antt =====
-- The ack header: what `AddAckHeader` writes, what `ProcessAcks` does with it, and the two
-- together.
pub mod Bitset
pub mod Process
pub mod Exchange
use gio_net.Base.{
  ℕ, ◌+◌, ◌-◌, ◌≡◌, Bool, true, not, ◌&&◌, ◌||◌, Option, none, some, List, [], ◌∷◌, ◌++◌, u16, ◌==◌,
  ◌^◌, bit_and, if◌then◌else◌,
}
use gio_net.Base.Map.{Map, find}
use gio_net.Packet.{Packet}

-- The id that lies n behind another, on the cycle of 2 ^ 16 numbers.
abbrev pub behind : ℕ → ℕ → ℕ
behind n id = u16 (id + 65536 - n)

abbrev pub test_bit : ℕ → ℕ → Bool
test_bit i bitset = not (bit_and bitset (2 ^ i) == 0)

-- A header acknowledges its ack id, and the four ids behind it by a bit each.
abbrev pub acknowledges : Packet → ℕ → Bool
acknowledges p id =
    p.ack_id == id
    || test_bit 0 p.ack_bitset && behind 1 p.ack_id == id
    || test_bit 1 p.ack_bitset && behind 2 p.ack_id == id
    || test_bit 2 p.ack_bitset && behind 3 p.ack_id == id
    || test_bit 3 p.ack_bitset && behind 4 p.ack_id == id

abbrev pub to_list : Option Packet → List Packet
to_list none = []
to_list (some p) = p ∷ []

-- What one bit of a header, when it is off, sends once more.
abbrev pub resent : Bool → ℕ → Map Packet → List Packet
resent acked id m = if acked then [] else to_list (find id m)

-- What a header sends once more: the packets without a bit that still wait for their ack.
abbrev pub resends : Packet → Map Packet → List Packet
resends p m =
    resent (test_bit 0 p.ack_bitset) (behind 1 p.ack_id) m
    ++ (resent (test_bit 1 p.ack_bitset) (behind 2 p.ack_id) m
        ++ (resent (test_bit 2 p.ack_bitset) (behind 3 p.ack_id) m
            ++ (resent (test_bit 3 p.ack_bitset) (behind 4 p.ack_id) m ++ [])))
