-- ===== src/NetworkingWin/Ping.antt =====
-- A ping from either side, and what the other prints of it.
use gio_net.Base.{
  ℕ, ◌≡◌, refl, arith, Bool, none, some, [], ok, Bool-cases, inl, inr, if◌then◌else◌, bytes_of,
}
use gio_net.Base.Map.{find}
use gio_net.Address.{NetAddress}
use gio_net.Connection.{schedule}
use gio_net.Client.{Client, is_connected, send}
use gio_net.Server.{Server, get_peers, is_running, message_packet}
use gio_net.Server.Each.{AreLive, member, option_map}
use gio_net.Server.Broadcast.{heard, broadcast_lem}
use gio_net.Chat.Relay.{read_string-from_string}
use gio_net.NetworkingWin.{ping, server_hears, client_hears, server_pings, client_pings}

-- What a round of the client and one of the server do, and what the delegates print.
abbrev pub Pings : (NetAddress → NetAddress → Bool) → Client → Server → Type 0
Pings same_key c s =
    (if is_connected c
      then (client_pings c
          ≡ some (record c {
            connection_to_server = schedule c.connection_to_server (message_packet ping);
          }))
      else (client_pings c ≡ none))
    × (server_hears ping.«data» ≡ ok (bytes_of "Data received from peer Ping!\n"))
    × (if is_running s
        then ((t : Server) × (server_pings same_key s ≡ some (ok t))
            × (t.peers ≡ s.peers)
            × ((q : ℕ)
                → find q t.connections ≡ (
                    if member q (get_peers s)
                    then option_map (heard same_key ping []) (find q s.connections)
                    else find q s.connections)))
        else (server_pings same_key s ≡ none))
    × (client_hears ping.«data» ≡ ok (bytes_of "Data received from server: Ping!\n"))

-- A round of a connected client schedules a ping for the server, whose delegate prints it when it
-- comes, and a round of a running server, whose peers are distinct objects, schedules one on the
-- connection of each peer and on no other, which a client prints when it comes. Without a valid
-- socket the loop of either ends.
pub pings_lem :
    (same_key : NetAddress → NetAddress → Bool) (c : Client) (s : Server)
    → AreLive (get_peers s) s.connections
    → Pings same_key c s
unfolding client_pings server_pings server_hears client_hears send
pings_lem same_key c s live =
    let read = read_string-from_string (bytes_of "Ping!") (omega arith) in
    let (t, runs, effect, peers, _, _) = broadcast_lem same_key ping [] s live in
    (
      elim (Bool-cases (is_connected c)) [ inl e ↦ rw e refl | inr e ↦ rw e refl ],
      rw read refl,
      elim (Bool-cases (is_running s)) [
        | inl e ↦ rw e (t, rw runs refl, peers, effect)
        | inr e ↦ rw e refl
      ],
      rw read refl,
    )
