-- ===== src/Server/Sending.antt =====
-- The thread that sends: `SendThread` of GioNet/src/Server.cpp, one round of its loop.
use gio_net.Base.{
  ℕ, zero, suc, ◌+◌, Option, none, some, List, [], ◌++◌, Result, ok, fault, endless, ◌>>=◌, length,
}
use gio_net.Buffer.{empty}
use gio_net.Packet.{Packet}
use gio_net.Packet.Codec.{write_packet}
use gio_net.Socket.{Socket, Call, send_to}
use gio_net.Connection.{Connection, pop_ready_outgoing_packet}
use gio_net.Server.{Server, get_peers, each}

-- The socket of the round, the calls made so far and their number.
pub record Link : Type 0 where
  pub socket : Socket
  pub calls : List Call
  pub count : ℕ

-- What Winsock answers to the n-th call.
module _ (answer : ℕ → Option ℕ) where
  abbrev pub send_packet : Link → Connection → Packet → Result Link
  send_packet l c p = do
    (sent, socket, made) ← send_to l.socket (write_packet p empty) (some c.address) (answer l.count)
    ok (record { socket = socket; calls = l.calls ++ made; count = l.count + 1 })

  -- The inner loop on fuel.
  unfoldable pub send_peer : ℕ → Link → Connection → Result (Link × Connection)
  send_peer zero l c = fault endless
  send_peer (suc fuel) l c =
      let (popped, c1) = pop_ready_outgoing_packet c in
      elim popped [ none ↦ ok (l, c1) | some p ↦ send_packet l c1 p >>= λ l1. send_peer fuel l1 c1 ]

  abbrev pub send_body : Link → Connection → Result (Link × Connection)
  send_body l c = send_peer (suc (length c.outgoing.ready_packets)) l c

  unfoldable pub send_round : Server → Result (List Call × Server)
  send_round s = do
    (l, h) ←
        each send_body (get_peers s) (record { socket = s.socket; calls = []; count = 0 })
          s.connections
    ok (l.calls, record s { socket = l.socket; connections = h })
