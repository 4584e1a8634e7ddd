-- ===== src/Chat.antt =====
-- Chat/Chat.cpp: a chat on top of the library. A key and a character are bytes, and the console
-- is the list of what was printed. The users at the keyboard and the times at which they type are
-- the arguments.
pub mod Editing
pub mod Relay
pub mod Opening
pub mod Args
pub mod Argument
pub mod Arguments
mod Examples
use gio_net.Base.{
  ℕ, zero, suc, ◌+◌, ◌-◌, Bool, true, false, ◌&&◌, ◌||◌, Option, none, some, List, [], ◌∷◌, ◌++◌,
  Result, ok, ◌>>=◌, if◌then◌else◌, length, ◌==◌, ltb, bytes_of,
}
use gio_net.Buffer.{Buffer, from_string, read_string}
use gio_net.Address.{NetAddress}
use gio_net.Message.{Message, make_message}
use gio_net.Client.{Client, send}
use gio_net.Server.{Server, Event, peer_connected, peer_disconnected, data_received, broadcast}

-- MaxMessageLength
abbrev pub max_message_length : ℕ
max_message_length = 100

-- ChatHost, with what was printed.
pub record ChatHost : Type 0 where
  pub username : List ℕ
  pub prompt : List ℕ
  pub screen : List ℕ

abbrev pub print : List ℕ → ChatHost → ChatHost
print text h = record h { screen = h.screen ++ text }

-- What `PrintMessageHeader` prints.
abbrev pub message_header : List ℕ → List ℕ
message_header name = bytes_of "[" ++ (name ++ bytes_of "]: ")

abbrev pub spaces : ℕ → List ℕ
spaces zero = []
spaces (suc n) = b' ' ∷ spaces n

-- `PrintMessage`. A count below zero prints no space.
unfoldable pub print_message : List ℕ → ChatHost → ChatHost
print_message view h =
    print
      (b'\r' ∷ view
        ++ (spaces (max_message_length - length view)
            ++ (b'\n' ∷ message_header h.username ++ h.prompt)))
      h

-- `prompt.erase(prompt.end() - 1)`
abbrev pub erase_last : List ℕ → List ℕ
erase_last [] = []
erase_last (x ∷ []) = []
erase_last (x ∷ y ∷ ys) = x ∷ erase_last (y ∷ ys)

-- b'\b'
abbrev pub backspace : ℕ
backspace = 8

abbrev pub is_blank : List ℕ → Bool
is_blank [] = true
is_blank (x ∷ xs) = false

-- `AppendToPrompt`
abbrev pub append_to_prompt : ℕ → ChatHost → ChatHost
append_to_prompt c h =
    if (c == backspace) && ltb 0 (length h.prompt)
    then print (b' ' ∷ backspace ∷ []) (record h { prompt = erase_last h.prompt })
    else record h { prompt = h.prompt ++ (c ∷ []) }

abbrev pub is_end : ℕ → Bool
is_end c = (c == b'\r') || (c == b'\n')

-- The loop of `ReadInput` on the keys that are typed: what was read, and the keys that are left.
-- It gives nothing when the keys end first, where the source waits.
unfoldable pub read_keys : List ℕ → ChatHost → Option (ChatHost × List ℕ)
read_keys [] h = none
read_keys (c ∷ cs) h = elim ((c == backspace) && is_blank h.prompt) [
  | true ↦ read_keys cs h
  | false ↦ elim (is_end c) [
    | true ↦ some (print (c ∷ []) h, cs)
    | false ↦ read_keys cs (append_to_prompt c (print (c ∷ []) h))
  ]
]

-- `ReadInput`
unfoldable pub read_input : List ℕ → ChatHost → Option (List ℕ × ChatHost × List ℕ)
read_input keys h = elim (read_keys keys (record h { prompt = [] })) [
  | none ↦ none
  | some (h1, rest) ↦ some (h1.prompt, print (b'\n' ∷ []) h1, rest)
]

-- `Format`
abbrev pub format : List ℕ → List ℕ → List ℕ
format username message = bytes_of "[" ++ (username ++ (bytes_of "]: " ++ message))

-- The message that holds a text.
abbrev pub text_message : List ℕ → Message
text_message text = make_message (from_string text)

-- ChatServer. The server itself is shared with its threads.
pub record ChatServer : Type 0 where
  pub host : ChatHost
  pub server : Server

abbrev pub new_host : List ℕ → ChatHost
new_host name = record { username = name; prompt = []; screen = [] }

-- `ChatServer()`, once the server is there.
abbrev pub chat_server : Server → ChatServer
chat_server s = record { host = new_host (bytes_of "SERVER"); server = s }

abbrev pub too_long : List ℕ
too_long = bytes_of "[ERROR]: Max message length exceeded.\n"

-- Whether the tables of the library take two addresses for one key.
module _ (same_key : NetAddress → NetAddress → Bool) where
  abbrev pub shout : List ℕ → List NetAddress → ChatServer → Result ChatServer
  shout text except s = do
    t ← broadcast same_key (text_message text) except s.server
    ok (record s { server = t })

  -- `Send`
  unfoldable pub chat_send : List ℕ → ChatServer → Result ChatServer
  chat_send message s =
      if ltb max_message_length (length message)
      then ok (record s { host = print too_long s.host })
      else shout (format s.host.username message) [] s

  -- `DataReceived`
  unfoldable pub chat_received : NetAddress → Buffer → ChatServer → Result ChatServer
  chat_received peer buff s = do
    (message, rest) ← read_string buff
    shout message (peer ∷ []) (record s { host = print_message message s.host })

  -- `PeerConnected` and `PeerDisconnected`
  abbrev chat_connected : ChatServer → Result ChatServer
  chat_connected s = chat_send (bytes_of "New peer connected...") s

  abbrev chat_disconnected : ChatServer → Result ChatServer
  chat_disconnected s = chat_send (bytes_of "Peer connected...") s

  -- The delegates that `Run` binds.
  unfoldable pub chat_event : Event → ChatServer → Result ChatServer
  chat_event (peer_connected a) s = chat_connected s
  chat_event (peer_disconnected a) s = chat_disconnected s
  chat_event (data_received a b) s = chat_received a b s

  -- A round of the loop of `Run`: a line is read and sent. Without a whole line it waits.
  unfoldable pub chat_round : List ℕ → ChatServer → Option (Result ChatServer × List ℕ)
  chat_round keys s = elim (read_input keys (print (message_header s.host.username) s.host)) [
    | none ↦ none
    | some (input, h, rest) ↦ some (chat_send input (record s { host = h }), rest)
  ]

-- ChatClient
pub record ChatClient : Type 0 where
  pub host : ChatHost
  pub client : Client

-- A round of `Loop`, as long as the client is connected.
unfoldable pub client_round : List ℕ → ChatClient → Option (ChatClient × List ℕ)
client_round keys c = elim (read_input keys (print (message_header c.host.username) c.host)) [
  | none ↦ none
  | some (input, h, rest) ↦
      some
        (record { host = h; client = send (text_message (format h.username input)) c.client }, rest)
]

-- `DataReceived`
unfoldable pub client_received : Buffer → ChatClient → Result ChatClient
client_received buff c = do
  (message, rest) ← read_string buff
  ok (record c { host = print_message message c.host })
