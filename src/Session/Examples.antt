-- ===== src/Session/Examples.antt =====
-- A session: the client sends a message, its server answers, and the delegate gets the answer.
use gio_net.Base.{ℕ, ◌≡◌, refl, arith, some, [], ◌∷◌, inl, bytes_of}
use gio_net.Base.Map.{contains, find, insert, erase}
use gio_net.Buffer.{
  from_raw, write, read, copy_bytes_into_payload, extract_bytes_from_payload, to_bytes, from_bytes,
  write_buffer, read_buffer, read_body, length_i32,
}
use gio_net.Address.{NetAddress, address_equal, text_equal}
use gio_net.Packet.{Packet, is_reliable, has_flags, make_packet, set_flags}
use gio_net.Packet.Codec.{packet_buffer, read_packet, write_packet}
use gio_net.Packet.RoundTrip.{IsPacket}
use gio_net.Connection.{
  new_connection, received, schedule, has_received_packet, process_acks, process_bits, packet_acked,
  reschedule_packet, enqueue_loop, enqueue_processable_packets, update_ack_id, latest_id,
  next_expected, get_index_for_next_packet, add_ack_header, ack_bits, pop_ready_outgoing_packet,
  pop_ready_incoming_packet, pop_next_ready_packet,
}
use gio_net.Connection.Samples.{data_packet}
use gio_net.Message.{make_message}
use gio_net.Socket.{default_socket, udp, is_valid, send_to, receive_from}
use gio_net.Thread.{running}
use gio_net.Client.{
  Client, is_connected, send, listen_round, process_incoming_packet, process_incoming,
}
use gio_net.Client.Sending.{sending_round, send_ready}
use gio_net.System.{side_schedules, side_transmits, side_takes}
use gio_net.Session.{
  Session, Step, client_sends, client_transmits, client_listens, peer_schedules, peer_transmits,
  Reach, here, next, init,
}

abbrev home : NetAddress
home = record { ip = bytes_of "10.0.0.1"; port = 27015 }

abbrev guest : NetAddress
guest = record { ip = bytes_of "10.0.0.2"; port = 5000 }

abbrev client : Client
client = record {
  server_address = home;
  socket = record default_socket {
    communication_protocol = udp;
    win_socket = some 3;
    win_addr_info = some 9;
  };
  connection_to_server = new_connection home;
  listen_thread = running;
  send_thread = running;
}

abbrev Trace : Type 0
Trace = (s : Session) × Reach (init client guest) s

abbrev goes_on : (t : Trace) {s : Session} → Step t.0 s → Trace
goes_on t step = (_, next t.1 step)

run_open : ℕ → ℕ
unfolding is_connected is_valid send sending_round send_ready pop_ready_outgoing_packet schedule
    is_reliable make_packet get_index_for_next_packet send_to has_flags set_flags side_schedules
    side_transmits side_takes received has_received_packet process_acks process_bits packet_acked
    reschedule_packet enqueue_loop enqueue_processable_packets update_ack_id latest_id next_expected
    add_ack_header ack_bits pop_ready_incoming_packet pop_next_ready_packet contains find insert
    erase listen_round receive_from from_raw process_incoming_packet process_incoming address_equal
    text_equal packet_buffer read_packet write_packet write read copy_bytes_into_payload
    extract_bytes_from_payload to_bytes from_bytes write_buffer read_buffer read_body length_i32
run_open n = n

asked : Trace
unfolding run_open
asked =
    let t0 : Trace = (init client guest, here) in
    let t1 =
      goes_on t0
        (client_sends (make_message (record { payload = 7 ∷ [] })) refl (λ _. omega arith)) in
    let t2 = goes_on t1 (client_transmits (λ n. some 14) 9 _ _ refl refl refl) in
    let t3 = goes_on t2 (
      peer_schedules (record (data_packet 1) { id = 0; payload = record { payload = 8 ∷ [] } })
        (λ _. omega arith)) in
    goes_on t3 peer_transmits

-- The packet of the server's message on the wire.
abbrev reply : Packet
reply = record (data_packet 1) { payload = record { payload = 8 ∷ [] } }

reply-IsPacket : IsPacket reply
reply-IsPacket = record {
  header_fits = omega arith;
  id_fits = omega arith;
  ack_id_fits = omega arith;
  ack_bitset_fits = omega arith;
  payload_fits = omega arith;
}

answered : Trace
unfolding asked
answered =
    goes_on asked
      (client_listens reply home _ _ _ (inl refl) reply-IsPacket (omega arith) refl refl refl)

-- The delegate of the client got the answer.
answer_handed : answered.0.handed ≡ record { payload = 8 ∷ [] } ∷ []
unfolding answered
answer_handed = refl
