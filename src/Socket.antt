-- ===== src/Socket.antt =====
-- GioNet/inc/Socket.h and GioNet/src/Socket.cpp. What Winsock answers to a call is an argument of
-- the operation that makes it, `none` for SOCKET_ERROR, INVALID_SOCKET or an error code; the
-- calls that release a resource or send bytes are listed in the order in which they are made.
pub mod Ownership
pub mod Lifetime
pub mod Returns
mod Examples
use gio_net.Base.{
  ℕ, Bool, true, false, not, Option, none, some, List, [], ◌∷◌, ◌++◌, Result, ok, fault,
  null_pointer, ◌>>=◌, ◌>>◌, assert, if◌then◌else◌,
}
use gio_net.Buffer.{Buffer, from_raw}
use gio_net.Address.{NetAddress}

pub data CommunicationProtocols : Type 0 where
  tcp udp : CommunicationProtocols

abbrev pub is_tcp : CommunicationProtocols → Bool
is_tcp tcp = true
is_tcp udp = false

-- A handle and an address list are numbers; INVALID_SOCKET and nullptr are `none`.
pub record Socket : Type 0 where
  pub address : NetAddress
  pub communication_protocol : CommunicationProtocols
  pub win_socket : Option ℕ
  pub win_addr_info : Option ℕ

pub data Call : Type 0 where
  closes : ℕ → Call
  frees : ℕ → Call
  sends : Option NetAddress → List ℕ → Call

-- `Socket()`
abbrev pub default_socket : Socket
default_socket = record {
  address = record { ip = []; port = 0 };
  communication_protocol = tcp;
  win_socket = none;
  win_addr_info = none;
}

abbrev pub holds : Option ℕ → Bool
holds none = false
holds (some h) = true

-- `IsValid`
unfoldable pub is_valid : Socket → Bool
is_valid s = holds s.win_socket

abbrev free_calls : Option ℕ → List Call
free_calls none = []
free_calls (some a) = frees a ∷ []

abbrev close_calls : Option ℕ → List Call
close_calls none = []
close_calls (some h) = closes h ∷ []

-- `FreeAddressInfo`
unfoldable pub free_address_info : Socket → Socket × List Call
free_address_info s = (record s { win_addr_info = none }, free_calls s.win_addr_info)

-- `Close`
unfoldable pub close : Socket → Socket × List Call
unfolding free_address_info
close s =
    let (freed, calls) = free_address_info s in
    (record freed { win_socket = none }, calls ++ close_calls freed.win_socket)

-- The socket that the constructor makes of the answers of getaddrinfo and socket.
abbrev opened : NetAddress → CommunicationProtocols → Option ℕ → Option ℕ → Socket
opened a protocol info handle = record {
  address = a;
  communication_protocol = protocol;
  win_socket = handle;
  win_addr_info = info;
}

-- `Socket(address, protocol)`. Without an address list no handle is asked for.
unfoldable pub open_socket :
    NetAddress → CommunicationProtocols → Option ℕ → Option ℕ → Socket × List Call
unfolding close
open_socket a protocol none handle = (opened a protocol none none, [])
open_socket a protocol (some info) none = close (opened a protocol (some info) none)
open_socket a protocol (some info) (some h) = (opened a protocol (some info) (some h), [])

-- `~Socket`
unfoldable pub destroy : Socket → List Call
unfolding close is_valid
destroy s = if is_valid s then (close s).1 else []

-- The moved-from socket and the new one, by the defaulted move constructor: the text of the
-- address is moved, and left empty, the handle and the address list are copied.
unfoldable pub move : Socket → Socket × Socket
move s = (record s { address = record s.address { ip = [] } }, s)

-- An answer to a call that closes the socket when it fails.
abbrev pub or_close {ℓ} :
    {A : Type ℓ} → Option A → List Call → Socket → Option A × Socket × List Call
or_close (some a) made s = (some a, s, made)
or_close none made s = let (closed, calls) = close s in (none, closed, made ++ calls)

-- `Send`
unfoldable pub send : Socket → Buffer → Option ℕ → Result (Option ℕ × Socket × List Call)
unfolding close
send s b answer =
    assert (is_tcp s.communication_protocol) >> ok (or_close answer (sends none b.payload ∷ []) s)

-- `SendTo`: with no destination the bytes go to the address that the socket was made for.
unfoldable pub send_to :
    Socket → Buffer → Option NetAddress → Option ℕ → Result (Option ℕ × Socket × List Call)
unfolding close
send_to s b none answer = do
  assert (not (is_tcp s.communication_protocol))
  assert (holds s.win_addr_info)
  ok (or_close answer (sends none b.payload ∷ []) s)
send_to s b (some to) answer = do
  assert (not (is_tcp s.communication_protocol))
  ok (or_close answer (sends (some to) b.payload ∷ []) s)

-- `Receive`: the bytes that came in.
unfoldable pub receive : Socket → Option (List ℕ) → Result (Option Buffer × Socket × List Call)
unfolding close
receive s none = do assert (is_tcp s.communication_protocol); ok (or_close none [] s)
receive s (some bytes) = do
  assert (is_tcp s.communication_protocol)
  b ← from_raw bytes
  ok (some b, s, [])

-- `ReceiveFrom`: the bytes and their sender. A failure leaves `outFrom` as it was, here none.
unfoldable pub receive_from :
    Socket
    → Option (List ℕ × NetAddress)
    → Result (Option (Buffer × NetAddress) × Socket × List Call)
unfolding close
receive_from s none = do assert (not (is_tcp s.communication_protocol)); ok (or_close none [] s)
receive_from s (some (bytes, from)) = do
  assert (not (is_tcp s.communication_protocol))
  b ← from_raw bytes
  ok (some (b, from), s, [])

-- The address list is read.
abbrev deref : Option ℕ → Result (Unit {0})
deref none = fault null_pointer
deref (some a) = ok tt

-- `Bind`: whether it worked.
unfoldable pub bind : Socket → Bool → Result (Bool × Socket × List Call)
unfolding close free_address_info
bind s true =
    deref s.win_addr_info >> (let (freed, calls) = free_address_info s in ok (true, freed, calls))
bind s false = deref s.win_addr_info >> (let (closed, calls) = close s in ok (false, closed, calls))

-- `Listen`
unfoldable pub listen : Socket → Bool → Result (Bool × Socket × List Call)
unfolding close
listen s answer = do
  assert (is_tcp s.communication_protocol)
  ok (if answer then (true, s, []) else let (closed, calls) = close s in (false, closed, calls))

-- `AcceptConnection`: the answer is a handle, the peer's address and its `sin_port`, whose bytes
-- are in network order and are stored so.
unfoldable pub accept_connection : Socket → Option (ℕ × List ℕ × ℕ) → Result (Option Socket)
accept_connection s none = do assert (is_tcp s.communication_protocol); ok none
accept_connection s (some (handle, ip, sin_port)) = do
  assert (is_tcp s.communication_protocol)
  ok (
      some (record default_socket {
        address = record { ip = ip; port = sin_port };
        win_socket = some handle;
      }))

-- `Connect`. A failure leaves the socket open.
unfoldable pub connect : Socket → Bool → Result (Bool × Socket × List Call)
unfolding free_address_info is_valid
connect s false = do
  assert (is_tcp s.communication_protocol)
  deref s.win_addr_info
  ok (false, s, [])
connect s true = do
  assert (is_tcp s.communication_protocol)
  deref s.win_addr_info
  let (freed, calls) = free_address_info s in ok (is_valid freed, freed, calls)
