-- ===== src/Packet/Codec.antt =====
-- `Write<Packet>` and `Read<Packet>` of GioNet/src/Buffer.cpp, and `Buffer(const Packet&)`.
use gio_net.Base.{Result, ok, ◌>>=◌}
use gio_net.Buffer.{Buffer, empty, write, read, write_buffer, read_buffer}
use gio_net.Packet.{Packet}

unfoldable pub write_packet : Packet → Buffer → Buffer
write_packet p b =
    let b1 = write 1 p.header b in
    let b2 = write 2 p.id b1 in
    let b3 = write 2 p.ack_id b2 in let b4 = write 4 p.ack_bitset b3 in write_buffer p.payload b4

unfoldable pub read_packet : Buffer → Result (Packet × Buffer)
read_packet b = do
  (header, b1) ← read 1 b
  (id, b2) ← read 2 b1
  (ack_id, b3) ← read 2 b2
  (ack_bitset, b4) ← read 4 b3
  (payload, b5) ← read_buffer b4
  ok (
    record {
      header = header;
      id = id;
      ack_id = ack_id;
      ack_bitset = ack_bitset;
      payload = payload;
    },
    b5,
  )

unfoldable pub packet_buffer : Packet → Buffer
packet_buffer p = write_packet p empty
