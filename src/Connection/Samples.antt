-- ===== src/Connection/Samples.antt =====
-- Connections and packets for the tests.
use gio_net.Base.{ℕ, [], ◌∷◌}
use gio_net.Address.{NetAddress}
use gio_net.Packet.{Packet}
use gio_net.Connection.{Connection, new_connection}

abbrev pub peer : NetAddress
peer = record { ip = []; port = 27015 }

abbrev pub new_one : Connection
new_one = new_connection peer

-- A reliable data packet with no acks, whose payload is its id.
abbrev pub data_packet : ℕ → Packet
data_packet id = record {
  header = 0x11;
  id = id;
  ack_id = 0;
  ack_bitset = 0;
  payload = record { payload = id ∷ [] };
}

abbrev pub plain_packet : Packet
plain_packet = record (data_packet 0) { header = 0x01 }
