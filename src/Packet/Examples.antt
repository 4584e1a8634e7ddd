-- ===== src/Packet/Examples.antt =====
-- Packets on the wire: tests, those of GioNetTests/src/BufferSerializationTests.cpp and
-- PacketTests.cpp among them, and the theorems at inputs that meet their hypotheses.
use gio_net.Base.{bytes_of, ℕ, ◌≡◌, refl, false, arith, [], ◌∷◌, ok, fault, assertion}
use gio_net.Buffer.{
  empty, write, read, read_buffer, read_body, to_bytes, from_bytes, length_i32,
  copy_bytes_into_payload, extract_bytes_from_payload, write_buffer,
}
use gio_net.Packet.{Packet, get_type, get_flags, set_flags, reliable_flag, default_packet}
use gio_net.Packet.Codec.{write_packet, read_packet, packet_buffer}
use gio_net.Packet.Header.{set_flags_off}
use gio_net.Packet.Malformed.{read_packet_lem, is_well_formed}
use gio_net.Packet.RoundTrip.{read_packet-packet_buffer}

-- The last packet of the test `packet`.
abbrev other_packet : Packet
other_packet = record {
  header = 0x10;
  id = 65535;
  ack_id = 65535;
  ack_bitset = 4294967295;
  payload = record { payload = bytes_of "Other payload!" };
}

wire : ℕ → ℕ
unfolding write_packet read_packet packet_buffer write read read_buffer read_body to_bytes
    from_bytes length_i32 copy_bytes_into_payload extract_bytes_from_payload write_buffer
wire n = n

read_back : read_packet (packet_buffer other_packet) ≡ ok (other_packet, empty)
unfolding wire
read_back = refl

read_packet-packet_buffer_example :
    read_packet (packet_buffer other_packet) ≡ ok (other_packet, empty)
read_packet-packet_buffer_example = read_packet-packet_buffer other_packet (omega arith)

-- A datagram of five bytes.
read_packet_lem_example :
    read_packet (record { payload = 1 ∷ 2 ∷ 3 ∷ 4 ∷ 5 ∷ [] }) ≡ fault assertion
unfolding is_well_formed from_bytes
read_packet_lem_example = read_packet_lem (1 ∷ 2 ∷ 3 ∷ 4 ∷ 5 ∷ []) (omega arith)

-- The reliable data packet stays reliable, and is no data packet any more.
set_flags_off_example :
    (get_flags (set_flags (record default_packet { header = 0x11 }) reliable_flag false) ≡ 1)
    × (get_type (set_flags (record default_packet { header = 0x11 }) reliable_flag false) ≡ 0)
unfolding get_flags get_type
set_flags_off_example = set_flags_off (record default_packet { header = 0x11 }) (omega arith)
