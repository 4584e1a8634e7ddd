-- ===== src/Server/Life.antt =====
-- The life of a server: its constructor, `Start` and `Stop` of GioNet/src/Server.cpp, and the
-- tests that keep its two threads going.
use gio_net.Base.{
  ℕ, Bool, not, ◌&&◌, Option, List, [], ◌++◌, Result, ok, ◌>>=◌, ◌>>◌, assert, if◌then◌else◌,
}
use gio_net.Socket.{Socket, Call, udp, open_socket, is_valid, bind, close, destroy}
use gio_net.Thread.{idle, running, request_stop, stop_requested}
use gio_net.Server.{Server}

-- `Server(port)`, on the answers of getaddrinfo and socket, and on whether bind worked.
unfoldable pub make_server : ℕ → Option ℕ → Option ℕ → Bool → Result (Server × List Call)
make_server port info handle bound =
    let (opened, calls) = open_socket (record { ip = []; port = port }) udp info handle in
    do
      assert (is_valid opened)
      (_, socket, more) ← bind opened bound
      ok (
        record {
          socket = socket;
          peers = [];
          connections = [];
          next_pointer = 0;
          listen_thread = idle;
          send_thread = idle;
        },
        calls ++ more,
      )

-- `Start`
unfoldable pub start : Server → Result Server
start s =
    assert (is_valid s.socket) >> ok (record s { listen_thread = running; send_thread = running })

-- The socket that `Stop` leaves, and the calls made.
abbrev close_valid : Socket → Socket × List Call
close_valid s = if is_valid s then close s else (s, [])

-- `Stop`
unfoldable pub stop : Server → Server × List Call
stop s =
    let (socket, calls) = close_valid s.socket in
    (
      record s {
        socket = socket;
        listen_thread = request_stop s.listen_thread;
        send_thread = request_stop s.send_thread;
        peers = [];
      },
      calls,
    )

-- `~Server`: `Stop`, and the end of the socket.
unfoldable pub destroy_server : Server → List Call
unfolding stop
destroy_server s = let (stopped, calls) = stop s in calls ++ destroy stopped.socket

-- The tests of the loops of `ListenThread` and `SendThread`.
unfoldable pub listens : Server → Bool
listens s = is_valid s.socket && not (stop_requested s.listen_thread)

unfoldable pub sends_on : Server → Bool
sends_on s = is_valid s.socket && not (stop_requested s.send_thread)
