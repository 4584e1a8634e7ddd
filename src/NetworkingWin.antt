-- ===== src/NetworkingWin.antt =====
-- NetworkingWin/NetworkingWin.cpp: a program that runs a server or a client which says "Ping!" to
-- the other side again and again. What is printed is the text that is returned.
pub mod Choice
pub mod Ping
mod Examples
use gio_net.Base.{
  ℕ, zero, suc, Bool, Option, none, some, List, [], ◌∷◌, ◌++◌, Result, ok, ◌>>=◌, if◌then◌else◌,
  ◌==◌, bytes_of,
}
use gio_net.Buffer.{Buffer, read_string}
use gio_net.Address.{NetAddress, default_port, text_equal, c_string}
use gio_net.Message.{Message}
use gio_net.Socket.{Call}
use gio_net.Client.{Client, is_connected, send, start}
use gio_net.Server.{Server, is_running, broadcast}
use gio_net.Server.Life
use gio_net.NetSystem.{create_server, create_client}
use gio_net.Chat.{text_message}
use gio_net.Chat.Args.{Args, get_arg, find_arg, parse_args}

-- The message of either side.
abbrev pub ping : Message
ping = text_message (bytes_of "Ping!")

-- The delegate of the server, and that of the client.
unfoldable pub server_hears : Buffer → Result (List ℕ)
server_hears buff = do
  (message, rest) ← read_string buff
  ok (bytes_of "Data received from peer " ++ (c_string message ++ bytes_of "\n"))

unfoldable pub client_hears : Buffer → Result (List ℕ)
client_hears buff = do
  (message, rest) ← read_string buff
  ok (bytes_of "Data received from server: " ++ (c_string message ++ bytes_of "\n"))

-- The start of `RunServer`, on the answers of getaddrinfo, socket and bind.
unfoldable pub run_server : Option ℕ → Option ℕ → Bool → Result (Server × List Call)
run_server info handle bound = do
  (server, calls) ← create_server default_port info handle bound
  started ← Life.start server
  ok (started, calls)

-- A round of the loop of `RunServer`; none when the loop ends.
unfoldable pub server_pings : (NetAddress → NetAddress → Bool) → Server → Option (Result Server)
server_pings same_key s = if is_running s then some (broadcast same_key ping [] s) else none

-- The start of `RunClient` with the server's ip, on the answers of getaddrinfo, socket and
-- sendto.
unfoldable pub run_client : List ℕ → Option ℕ → Option ℕ → Option ℕ → Result (Client × List Call)
run_client server_ip info handle answer =
    let (client, calls) = create_client (c_string server_ip) default_port info handle in
    do (started, more) ← start client answer; ok (started, calls ++ more)

-- A round of the loop of `RunClient`; none when the loop ends.
unfoldable pub client_pings : Client → Option Client
client_pings c = if is_connected c then some (send ping c) else none

-- `ParseArgs`, the same text as that of the chat.
unfoldable pub read_args : List (List ℕ) → Option Args
read_args argv = parse_args argv []

-- What `main` runs: a server, a client of the server at an ip, or nothing but an error message.
pub data Program : Type 0 where
  serves : Program
  connects : List ℕ → Program
  reports : List ℕ → Program

abbrev pub no_server_ip : List ℕ
no_server_ip = bytes_of "[ERROR] No server ip has been specified\n"

abbrev pub no_mode : List ℕ
no_mode = bytes_of "[ERROR] No execution mode has been specified\n"

-- `RunClient` up to its client.
abbrev pub connects_to : Option (List ℕ) → Program
connects_to none = reports no_server_ip
connects_to (some server_ip) = connects server_ip

-- `main`, once the arguments are parsed.
unfoldable pub program : Args → Program
program m =
    let mode = get_arg (bytes_of "mode") m in
    if text_equal mode (bytes_of "server")
    then serves
    else (if text_equal mode (bytes_of "client")
        then connects_to (find_arg (bytes_of "server_ip") m)
        else reports no_mode)

-- What `main` returns when it does.
abbrev pub exit_code : Program → ℕ
exit_code serves = 0
exit_code (connects server_ip) = 0
exit_code (reports message) = 1
