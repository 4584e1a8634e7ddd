-- ===== src/Server/Listening.antt =====
-- The thread that listens: `ListenThread` of GioNet/src/Server.cpp, one round of its loop, from
-- the answer of recvfrom on.
use gio_net.Base.{ℕ, Bool, ◌≡◌, refl, false, Option, none, some, List, [], Result, ok, ◌>>=◌}
use gio_net.Buffer.{Buffer}
use gio_net.Address.{NetAddress}
use gio_net.Socket.{Call, is_valid, receive_from, udp, close}
use gio_net.Server.{Server, Event, handle_datagram, get_peers, is_running}
use gio_net.Server.Life.{listens, sends_on}

module _ (same_key : NetAddress → NetAddress → Bool) where
  -- The branches on what came in.
  abbrev take_received : Server → Option (Buffer × NetAddress) → Result (Server × List Event)
  take_received s none = ok (s, [])
  take_received s (some (b, source)) = handle_datagram same_key s source b

  -- The round: the server, the calls of the delegates and those of Winsock.
  unfoldable pub server_round :
      Server → Option (List ℕ × NetAddress) → Result (Server × List Event × List Call)
  server_round s answer = do
    (came, socket, made) ← receive_from s.socket answer
    (t, events) ← take_received (record s { socket = socket }) came
    ok (t, events, made)

  -- When a receive fails on a socket for datagrams, the socket is closed: the server no longer
  -- runs and both threads end, though nobody has stopped it; its peers stay in the table, and no
  -- delegate is called.
  pub server_round_failed :
      (s : Server)
      → s.socket.communication_protocol ≡ udp
      → (t : Server) × (calls : List Call) × (server_round s none ≡ ok (t, [], calls))
        × (is_running t ≡ false)
        × (listens t ≡ false)
        × (sends_on t ≡ false)
        × (get_peers t ≡ get_peers s)
        × (t.connections ≡ s.connections)
  unfolding server_round receive_from is_running listens sends_on is_valid close get_peers
  server_round_failed s u = (
    record s { socket = (close s.socket).0 },
    (close s.socket).1,
    simp u refl,
    refl,
    refl,
    refl,
    refl,
    refl,
  )
