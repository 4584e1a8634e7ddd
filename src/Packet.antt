-- ===== src/Packet.antt =====
-- GioNet/inc/Packet.h and GioNet/src/Packet.cpp. The declared enumerators are the constructors;
-- what `GetType` and `GetFlags` cast back to the enumerations is the number that the header
-- holds.
pub mod Codec
pub mod Header
pub mod RoundTrip
pub mod Malformed
mod Examples
use gio_net.Base.{
  ℕ, ◌+◌, ◌-◌, ◌*◌, ◌/◌, ◌^◌, Bool, true, not, ◌&&◌, List, u8, ltb, ◌==◌, if◌then◌else◌, bit_and,
  bit_or,
}
use gio_net.Buffer.{Buffer, empty, length_i32, is_positive, equal}

-- InvalidId and MaxPossibleId
abbrev pub invalid_id : ℕ
invalid_id = 0

abbrev pub max_possible_id : ℕ
max_possible_id = 65535

pub data Types : Type 0 where
  connect_type data_type ping_type : Types

pub data Flags : Type 0 where
  no_flags reliable_flag : Flags

abbrev pub type_bits : Types → ℕ
type_bits connect_type = 0
type_bits data_type = 1
type_bits ping_type = 2

abbrev pub flag_bits : Flags → ℕ
flag_bits no_flags = 0
flag_bits reliable_flag = 1

abbrev pub type_mask : ℕ
type_mask = 0x0f

abbrev pub type_offset : ℕ
type_offset = 0

abbrev pub flags_mask : ℕ
flags_mask = 0xf0

abbrev pub flags_offset : ℕ
flags_offset = 4

-- MaxViableType and MaxViableFlags
abbrev pub max_viable_type : ℕ
max_viable_type = type_mask / 2 ^ type_offset

abbrev pub max_viable_flags : ℕ
max_viable_flags = flags_mask / 2 ^ flags_offset

pub record Packet : Type 0 where
  pub header : ℕ
  pub id : ℕ
  pub ack_id : ℕ
  pub ack_bitset : ℕ
  pub payload : Buffer

-- `Packet()`
abbrev pub default_packet : Packet
default_packet = record {
  header = 0;
  id = invalid_id;
  ack_id = invalid_id;
  ack_bitset = 0;
  payload = empty;
}

-- The static `HasFlags(header, flags)`.
unfoldable pub has_flags : ℕ → Flags → Bool
has_flags header flags = not (bit_and header (flag_bits flags * 2 ^ flags_offset) == 0)

unfoldable pub set_flags : Packet → Flags → Bool → Packet
set_flags p flag enabled =
    if enabled
    then record p { header = u8 (bit_or p.header (flag_bits flag * 2 ^ flags_offset)) }
    else record p { header = u8 (bit_and p.header (0xff - flag_bits flag)) }

-- `Packet(type, flags, payload)`. Its log message is left out.
unfoldable pub make_packet : Types → Flags → Buffer → Packet
unfolding set_flags
make_packet type flags payload =
    let typed = record default_packet {
      header = u8 (bit_or 0 (type_bits type * 2 ^ type_offset));
      payload = payload;
    } in
    set_flags typed flags true

unfoldable pub get_type : Packet → ℕ
get_type p = bit_and p.header type_mask / 2 ^ type_offset

unfoldable pub get_flags : Packet → ℕ
get_flags p = bit_and p.header flags_mask / 2 ^ flags_offset

-- The member `HasFlags(flags)` at the flag that the connection asks for.
unfoldable pub is_reliable : Packet → Bool
unfolding has_flags
is_reliable p = has_flags p.header reliable_flag

-- The defaulted `operator==`.
unfoldable pub packet_equal : Packet → Packet → Bool
packet_equal p q =
    p.header == q.header
    && p.id == q.id
    && p.ack_id == q.ack_id
    && p.ack_bitset == q.ack_bitset
    && equal p.payload q.payload
