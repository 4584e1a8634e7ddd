-- ===== src/Chat/Relay.antt =====
-- A line of the chat of Chat/Chat.cpp, from the keyboard of one client to the screens of the
-- others.
use gio_net.Base.{
  ℕ, ◌≡◌, ◌<◌, refl, sym, ◌∙◌, ap, arith, Bool, true, false, some, List, [], ◌∷◌, ◌++◌, append-nil,
  All, ok, if◌then◌else◌, length, u32,
}
use gio_net.Base.Map.{find}
use gio_net.Buffer.{empty, from_string, read_string, write_string, to_bytes}
use gio_net.Buffer.Bytes.{copy_bytes_into_payload_lem}
use gio_net.Packet.RoundTrip.{write_lem, read_string-append}
use gio_net.Address.{NetAddress}
use gio_net.Connection.{schedule}
use gio_net.Client.{Client, is_connected, send}
use gio_net.Server.{get_peers, message_packet}
use gio_net.Server.Each.{AreLive, member, option_map}
use gio_net.Server.Broadcast.{heard, broadcast_lem}
use gio_net.Chat.{
  ChatServer, ChatClient, print_message, format, text_message, is_end, chat_received, client_round,
  client_received, print, message_header,
}
use gio_net.Chat.Editing.{edited, read_input_lem}

-- The text of a buffer that was made of it.
pub read_string-from_string :
    (s : List ℕ) → length s < 2147483648 → read_string (from_string s) ≡ ok (s, empty)
unfolding from_string write_string
read_string-from_string s h =
    rw
      (
        write_lem 4 (u32 (length s)) empty,
        copy_bytes_into_payload_lem s (record { payload = to_bytes 4 (u32 (length s)) }),
        ap (λ t. read_string (record { payload = to_bytes 4 (u32 (length s)) ++ t }))
            (sym (append-nil s)),
      )
      (read_string-append s [] h (omega (arith, h)))

client_received_lem :
    (line : List ℕ) (c : ChatClient)
    → length line < 2147483648
    → client_received (from_string line) c ≡ ok (record c { host = print_message line c.host })
unfolding client_received
client_received_lem line c h = rw (read_string-from_string line h) refl

client_round_lem :
    (keys : List ℕ) (end : ℕ) (rest : List ℕ) (a : ChatClient)
    → All (λ c. is_end c ≡ false) keys
    → is_end end ≡ true
    → (a1 : ChatClient) × (client_round (keys ++ (end ∷ rest)) a ≡ some (a1, rest))
      × (a1.client ≡ send (text_message (format a.host.username (edited keys))) a.client)
unfolding client_round
client_round_lem keys end rest a typed e =
    let (h, runs, _, name) =
      read_input_lem keys end rest (print (message_header a.host.username) a.host) typed e in
    (
      record { host = h; client = send (text_message (format h.username (edited keys))) a.client },
      rw (runs, client_round) refl,
      ap (λ n. send (text_message (format n (edited keys))) a.client) name,
    )

send-connected :
    (c : Client) (line : List ℕ)
    → is_connected c ≡ true
    → send (text_message line) c ≡ record c {
      connection_to_server = schedule c.connection_to_server (message_packet (text_message line));
    }
unfolding send
send-connected c line e = rw e refl

module _ (same_key : NetAddress → NetAddress → Bool) where
  chat_received_lem :
      (line : List ℕ) (from : NetAddress) (s : ChatServer)
      → length line < 2147483648
      → AreLive (get_peers s.server) s.server.connections
      → (t : ChatServer) × (chat_received same_key from (from_string line) s ≡ ok t)
        × (t.host ≡ print_message line s.host)
        × ((q : ℕ)
            → find q t.server.connections ≡ (
                if member q (get_peers s.server)
                then option_map
                    (heard same_key (text_message line) (from ∷ []))
                    (find q s.server.connections)
                else find q s.server.connections))
  unfolding chat_received
  chat_received_lem line from s h live =
      let (u, runs, effect, _, _, _) =
        broadcast_lem same_key (text_message line) (from ∷ []) s.server live in
      (
        record { host = print_message line s.host; server = u },
        rw (read_string-from_string line h, runs) refl,
        refl,
        effect,
      )

  -- What a user types in a connected client, up to the end of the line, is scheduled for the
  -- server under the user's name. The server that gets it, from the address it knows the client
  -- by, prints it and schedules it on the connections of its peers but the one at that address,
  -- when the peers are distinct objects; and every client that gets it prints it. (A line has
  -- less than 2 ^ 31 bytes.)
  pub chat_line :
      (keys : List ℕ) (end : ℕ) (rest : List ℕ) (a : ChatClient) (from : NetAddress)
      (s : ChatServer)
      → All (λ c. is_end c ≡ false) keys
      → is_end end ≡ true
      → is_connected a.client ≡ true
      → length (format a.host.username (edited keys)) < 2147483648
      → AreLive (get_peers s.server) s.server.connections
      → let line = format a.host.username (edited keys) in
        let msg = text_message line in
        (a1 : ChatClient) × (t : ChatServer) × (client_round (keys ++ (end ∷ rest)) a
          ≡ some (a1, rest))
        × (a1.client ≡ record a.client {
          connection_to_server = schedule a.client.connection_to_server (message_packet msg);
        })
        × (chat_received same_key from msg.«data» s ≡ ok t)
        × (t.host ≡ print_message line s.host)
        × ((q : ℕ)
            → find q t.server.connections ≡ (
                if member q (get_peers s.server)
                then option_map (heard same_key msg (from ∷ [])) (find q s.server.connections)
                else find q s.server.connections))
        × ((c : ChatClient)
            → client_received msg.«data» c ≡ ok (record c { host = print_message line c.host }))
  chat_line keys end rest a from s typed e valid short live =
      let line = format a.host.username (edited keys) in
      let (a1, runs, sent) = client_round_lem keys end rest a typed e in
      let (t, relays, shown, effect) = chat_received_lem line from s short live in
      (
        a1,
        t,
        runs,
        sent ∙ send-connected a.client line valid,
        relays,
        shown,
        effect,
        λ c. client_received_lem line c short,
      )
