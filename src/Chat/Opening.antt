-- ===== src/Chat/Opening.antt =====
-- How the chat opens: `StartClient` and `StartServer` of Chat/Chat.cpp, up to the loops.
use gio_net.Base.{
  ℕ, ◌≡◌, refl, Bool, true, false, Option, none, some, List, [], ◌∷◌, ◌++◌, All, Result, ok, ◌>>=◌,
  ◌&&◌, if◌then◌else◌, bytes_of,
}
use gio_net.Address.{default_port, c_string}
use gio_net.Socket.{Call, is_valid, holds, open_socket, send_to}
use gio_net.Client.{start, is_connected, make_client}
use gio_net.Server.Life
use gio_net.NetSystem.{create_server, create_client}
use gio_net.Chat.{
  ChatHost, ChatClient, ChatServer, chat_server, new_host, print, read_input, is_end,
}
use gio_net.Chat.Editing.{edited, read_input_lem}

-- `ChatClient()` under what is on the screen: the host with its name, and the keys that are left.
unfoldable pub new_chat_client : List ℕ → ChatHost → Option (ChatHost × List ℕ)
new_chat_client keys h = elim (read_input keys (print (bytes_of "What is your name? ") h)) [
  | none ↦ none
  | some (name, h1, rest) ↦ some (record h1 { username = name }, rest)
]

abbrev pub not_connected : List ℕ
not_connected = bytes_of "Could not connect to server\n"

-- `Run` of the client, once the ip of the server is read.
unfoldable pub connect_chat :
    List ℕ → Option ℕ → Option ℕ → Option ℕ → ChatHost → Result (ChatClient × List Call)
connect_chat server_ip info handle answer h =
    let (client, calls) = create_client (c_string server_ip) default_port info handle in
    do
      (started, more) ← start client answer
      ok (
        record {
          host = if is_connected started then h else print not_connected h;
          client = started;
        },
        calls ++ more,
      )

-- `Run` of the client, up to its loop, on the answers of getaddrinfo, socket and sendto.
unfoldable pub run_chat_client :
    List ℕ
    → Option ℕ
    → Option ℕ
    → Option ℕ
    → ChatHost
    → Option (Result (ChatClient × List Call) × List ℕ)
run_chat_client keys info handle answer h =
    elim (read_input keys (print (bytes_of "What is the server ip? ") h)) [
      | none ↦ none
      | some (server_ip, h1, rest) ↦ some (connect_chat server_ip info handle answer h1, rest)
    ]

-- `StartClient`
unfoldable pub start_client :
    List ℕ → Option ℕ → Option ℕ → Option ℕ → Option (Result (ChatClient × List Call) × List ℕ)
start_client keys info handle answer =
    elim (new_chat_client keys (print (bytes_of "Welcome to Gio chat!\n") (new_host []))) [
      | none ↦ none
      | some (h, rest) ↦ run_chat_client rest info handle answer h
    ]

-- `StartServer`, with `ChatServer()` and `Run` up to its loop, on the answers of getaddrinfo,
-- socket and bind.
unfoldable pub start_server : Option ℕ → Option ℕ → Bool → Result (ChatServer × List Call)
start_server info handle bound = do
  (server, calls) ← create_server default_port info handle bound
  started ← Life.start server
  ok (chat_server started, calls)

-- Whatever the answers are, the client is there, and it is connected when all of them are good.
connect_chat_lem :
    (server_ip : List ℕ) (info handle answer : Option ℕ) (h : ChatHost)
    → (c : ChatClient) × (calls : List Call) × (connect_chat server_ip info handle answer h
        ≡ ok (c, calls))
      × (c.client.server_address ≡ record { ip = c_string server_ip; port = default_port })
      × (is_connected c.client ≡ (holds info && holds handle && holds answer))
      × (c.host ≡ (if is_connected c.client then h else print not_connected h))
unfolding connect_chat create_client start make_client open_socket is_valid is_connected send_to
connect_chat_lem server_ip none handle answer h = (_, _, refl, refl, refl, refl)
connect_chat_lem server_ip (some info) none answer h = (_, _, refl, refl, refl, refl)
connect_chat_lem server_ip (some info) (some handle) none h = (_, _, refl, refl, refl, refl)
connect_chat_lem server_ip (some info) (some handle) (some count) h = (_, _, refl, refl, refl, refl)

-- A user types a name and the ip of the server, each up to the end of a line. The chat then has a
-- client under that name for the server at that ip (up to a zero byte, if there is one) and the
-- default port. The client is connected just when the address is found, a socket is made and the
-- first datagram is sent; if it is not, the last that the screen shows says so. No key behind the
-- second line is read.
pub start_client_lem :
    (name : List ℕ) (end : ℕ) (server_ip : List ℕ) (end2 : ℕ) (rest : List ℕ)
    (info handle answer : Option ℕ)
    → All (λ c. is_end c ≡ false) name
    → is_end end ≡ true
    → All (λ c. is_end c ≡ false) server_ip
    → is_end end2 ≡ true
    → (c : ChatClient) × (calls : List Call) × (start_client
          (name ++ (end ∷ (server_ip ++ (end2 ∷ rest))))
          info
          handle
          answer
        ≡ some (ok (c, calls), rest))
      × (c.client.server_address ≡ record { ip = c_string (edited server_ip); port = default_port })
      × (is_connected c.client ≡ (holds info && holds handle && holds answer))
      × ((h : ChatHost) × (h.username ≡ edited name)
          × (c.host ≡ (if is_connected c.client then h else print not_connected h)))
unfolding start_client new_chat_client run_chat_client
start_client_lem name end server_ip end2 rest info handle answer typed e typed2 e2 =
    let welcome = print (bytes_of "Welcome to Gio chat!\n") (new_host []) in
    let (h, named, _, _) =
      read_input_lem name end (server_ip ++ (end2 ∷ rest))
        (print (bytes_of "What is your name? ") welcome) typed e in
    let (h1, asked, _, kept) =
      read_input_lem server_ip end2 rest
        (print (bytes_of "What is the server ip? ") (record h { username = edited name })) typed2
        e2 in
    let (c, calls, runs, address, connected, host) =
      connect_chat_lem (edited server_ip) info handle answer h1 in
    (
      c,
      calls,
      rw (named, start_client, new_chat_client) (rw (asked, run_chat_client) (rw runs refl)),
      address,
      connected,
      (h1, kept, host),
    )
