-- ===== src/Peer/Examples.antt =====
-- Peers at one address, with a socket and without.
use gio_net.Base.{ℕ, ◌+◌, ◌≡◌, refl, false, List, [], ◌∷◌, some, none, bytes_of}
use gio_net.Address.{NetAddress, address_equal, to_string, text_equal}
use gio_net.Socket.{default_socket}
use gio_net.Peer.{Peer, peer_equal, peer_to_string, socket_text}

abbrev home : NetAddress
home = record { ip = bytes_of "10.0.0.1"; port = 7 }

abbrev alone : Peer
alone = record { address = home; connection = none }

abbrev connected : Peer
connected = record {
  address = home;
  connection = some (1, record default_socket { address = home; win_socket = some 5 });
}

-- The digits of a number below ten.
digit : ℕ → List ℕ
digit n = (n + 48) ∷ []

two_texts :
    (peer_to_string digit (λ s. 0) (λ n. 0) alone ≡ bytes_of "10.0.0.1:7")
    × (peer_to_string digit (λ s. 0) (λ n. 0) connected ≡ bytes_of "(SOCKET:5 IP:10.0.0.1:7)")
unfolding peer_to_string socket_text to_string digit
two_texts = (refl, refl)

-- They are different peers.
not_the_same : peer_equal alone connected ≡ false
unfolding peer_equal address_equal text_equal
not_the_same = refl
