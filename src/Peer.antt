-- ===== src/Peer.antt =====
-- GioNet/inc/Peer.h and GioNet/src/Peer.cpp: an address with a shared socket, which is given by
-- its pointer and the object that this leads to.
mod Examples
use gio_net.Base.{
  ℕ, ◌≡◌, refl, Bool, true, false, ◌&&◌, Option, none, some, List, [], ◌∷◌, ◌++◌, ◌==◌, bytes_of,
}
use gio_net.Address.{NetAddress, address_equal, to_string, hash}
use gio_net.Socket.{Socket}

pub record Peer : Type 0 where
  pub address : NetAddress
  pub connection : Option (ℕ × Socket)

-- `operator==` of the pointers.
abbrev pub pointer_equal : Option (ℕ × Socket) → Option (ℕ × Socket) → Bool
pointer_equal none none = true
pointer_equal none (some q) = false
pointer_equal (some p) none = false
pointer_equal (some p) (some q) = p.0 == q.0

-- `operator==`
unfoldable pub peer_equal : Peer → Peer → Bool
peer_equal a b = address_equal a.address b.address && pointer_equal a.connection b.connection

-- INVALID_SOCKET, all bits on.
abbrev pub handle_number : Option ℕ → ℕ
handle_number none = 18446744073709551615
handle_number (some h) = h

-- With the decimal digits of `std::format`, and the hash functions of the library.
module _ (decimal : ℕ → List ℕ) (hash_string : List ℕ → ℕ) (hash_port : ℕ → ℕ) where
  -- `ToString` of a socket
  unfoldable pub socket_text : Socket → List ℕ
  socket_text s =
      bytes_of "(SOCKET:"
      ++ (decimal (handle_number s.win_socket)
          ++ (bytes_of " IP:"
              ++ (s.address.ip ++ (bytes_of ":" ++ (decimal s.address.port ++ bytes_of ")")))))

  -- `ToString`
  unfoldable pub peer_to_string : Peer → List ℕ
  peer_to_string p = elim p.connection [
    | none ↦ to_string decimal hash_string hash_port p.address
    | some (pointer, socket) ↦ socket_text socket
  ]

  -- `std::hash<Peer>`
  unfoldable pub peer_hash : Peer → ℕ
  peer_hash p = hash decimal hash_string hash_port p.address
