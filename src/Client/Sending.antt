-- ===== src/Client/Sending.antt =====
-- The thread that sends: `SendThread` of GioNet/src/Client.cpp, one round of its loop, and the
-- tests that keep the two threads going.
use gio_net.Base.{
  ℕ, zero, suc, ◌+◌, Bool, not, ◌&&◌, Option, none, some, List, [], ◌++◌, Result, ok, fault,
  endless, ◌>>=◌, length,
}
use gio_net.Buffer.{empty}
use gio_net.Packet.{Packet}
use gio_net.Packet.Codec.{write_packet}
use gio_net.Socket.{Socket, Call, send_to, is_valid}
use gio_net.Connection.{Connection, pop_ready_outgoing_packet}
use gio_net.Thread.{stop_requested}
use gio_net.Client.{Client}

-- The tests of the loops of `ListenThread` and `SendThread`: both ask the thread that listens.
unfoldable pub client_listens : Client → Bool
client_listens c = is_valid c.socket && not (stop_requested c.listen_thread)

unfoldable pub client_sends : Client → Bool
client_sends c = is_valid c.socket && not (stop_requested c.listen_thread)

-- What Winsock answers to the n-th call.
module _ (answer : ℕ → Option ℕ) where
  -- The body of the inner loop, as the n-th call; `SendTo` gets no address.
  abbrev pub send_datagram : ℕ → Socket → Packet → Result (Socket × List Call)
  send_datagram n s p = send_to s (write_packet p empty) none (answer n) >>= λ r. ok (r.1, r.2)

  -- The inner loop on fuel, from the n-th call on.
  unfoldable pub send_ready : ℕ → ℕ → Socket → Connection → Result (Socket × Connection × List Call)
  send_ready zero n s c = fault endless
  send_ready (suc fuel) n s c =
      let (popped, c1) = pop_ready_outgoing_packet c in
      elim popped [
        | none ↦ ok (s, c1, [])
        | some p ↦ send_datagram n s p >>= λ (t, made).
            send_ready fuel (n + 1) t c1 >>= λ (u, d, more). ok (u, d, made ++ more)
      ]

  -- One round more than there are packets in the queue.
  unfoldable pub sending_round : Client → Result (Client × List Call)
  sending_round c = do
    (socket, d, calls) ←
        send_ready (suc (length c.connection_to_server.outgoing.ready_packets)) 0 c.socket
          c.connection_to_server
    ok (record c { socket = socket; connection_to_server = d }, calls)
