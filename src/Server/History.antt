-- ===== src/Server/History.antt =====
-- A server over any history of its operations, from its constructor on.

use gio_net.Base.{ℕ, ◌≡◌, Bool, Option, some, List, ok}
use gio_net.Buffer.{Buffer}
use gio_net.Address.{NetAddress}
use gio_net.Packet.{Packet}
use gio_net.Packet.Codec.{read_packet}
use gio_net.Message.{Message}
use gio_net.Socket.{Call, udp}
use gio_net.Connection.Invariant.{IsArrival}
use gio_net.Server.{Server, Event, try_get_peer, handle_datagram, broadcast, remove_peer}
use gio_net.Server.Life.{make_server}
use gio_net.Server.Sending.{send_round}
use gio_net.Server.Table.{IsKeyTest}
use gio_net.Server.Fit.{
  IsFit, broadcast-IsFit, send_round-IsFit, datagram-IsFit, remove_peer-IsFit, made-IsFit,
}

module _ (same_key : NetAddress → NetAddress → Bool) (k : IsKeyTest same_key) where
  -- What the server may do between two rounds of its threads, on what comes in and what its user
  -- asks.
  pub data Step (s : Server) : Server → Type 0 where
    datagram :
        {t : Server} {events : List Event} (source : NetAddress) (b : Buffer) (p : Packet)
        (rest : Buffer)
        → read_packet b ≡ ok (p, rest)
        → IsArrival p
        → handle_datagram same_key s source b ≡ ok (t, events)
        → Step s t
    broadcasts :
        {t : Server} (msg : Message) (except : List NetAddress)
        → broadcast same_key msg except s ≡ ok t
        → Step s t
    sends_round :
        {t : Server} {calls : List Call} (answer : ℕ → Option ℕ)
        → s.socket.communication_protocol ≡ udp
        → send_round answer s ≡ ok (calls, t)
        → Step s t
    removes :
        {t : Server} {events : List Event} (a : NetAddress) (p : ℕ)
        → try_get_peer same_key s a ≡ some p
        → remove_peer same_key s p ≡ ok (t, events)
        → Step s t

  pub data Reach (s : Server) : Server → Type 0 where
    here : Reach s s
    next : {t u : Server} → Reach s t → Step t u → Reach s u

  Step-IsFit : {s t : Server} → Step s t → IsFit same_key k s → IsFit same_key k t
  Step-IsFit {s} {t} (datagram {events = events} source b p rest read arrival e) i =
      datagram-IsFit same_key k source b p rest s t events read arrival e i
  Step-IsFit {s} {t} (broadcasts msg except e) i = broadcast-IsFit same_key k msg except s t e i
  Step-IsFit {s} {t} (sends_round {calls = calls} answer u e) i =
      send_round-IsFit same_key k answer s t calls u e i
  Step-IsFit {s} {t} (removes {events = events} a p found e) i =
      remove_peer-IsFit same_key k a p s t events found e i

  Reach-IsFit : {s t : Server} → Reach s t → IsFit same_key k s → IsFit same_key k t
  Reach-IsFit here i = i
  Reach-IsFit (next reach step) i = Step-IsFit step (Reach-IsFit reach i)

  -- Over any history of datagrams with packets (unreliable, or with an id), broadcasts, sending
  -- rounds and removals of peers that are found, from a server as its constructor makes it: the
  -- peers are distinct objects, all connections are valid, no key is in the table twice, and each
  -- address leads to a connection with an address that is the same key.
  pub reach-IsFit :
      (port info handle : ℕ) (bound : Bool) (s t : Server) (calls : List Call)
      → make_server port (some info) (some handle) bound ≡ ok (s, calls)
      → Reach s t
      → IsFit same_key k t
  reach-IsFit port info handle bound s t calls made reach =
      Reach-IsFit reach (made-IsFit same_key k port info handle bound s calls made)
