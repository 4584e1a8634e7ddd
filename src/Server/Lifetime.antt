-- ===== src/Server/Lifetime.antt =====
-- A server from its constructor to its destructor.
use gio_net.Base.{
  ℕ, ◌≡◌, refl, Bool, true, false, arith, some, List, ◌++◌, ok, fault, assertion, if◌then◌else◌,
  ◌==◌, Option-cases, inl, inr,
}
use gio_net.Socket.{Call, bind, open_socket, is_valid, close, free_address_info, destroy}
use gio_net.Socket.Ownership.{total, closing, freeing}
use gio_net.Server.{Server, is_running, get_connected_peer_count}
use gio_net.Server.Life.{make_server, start, stop, destroy_server, listens, sends_on}

-- When the loops of both threads of a server have ended for good, and it has no peers.
abbrev pub IsOver : Server → Type 0
IsOver s =
    (is_running s ≡ false)
    × (get_connected_peer_count s ≡ 0)
    × (listens s ≡ false)
    × (sends_on s ≡ false)

stop-IsOver : (s : Server) → IsOver (stop s).0
unfolding stop is_running get_connected_peer_count listens sends_on is_valid close free_address_info
stop-IsOver s = elim (Option-cases s.socket.win_socket) [
  | inl e ↦ rw e (refl, refl, refl, refl)
  | inr (h, e) ↦ rw e (refl, refl, refl, refl)
]

-- The calls of the constructor and of the destructor release this handle and this address list.
abbrev pub AreReleased : ℕ → ℕ → List Call → Type 0
AreReleased info handle calls =
    ((n : ℕ) → total (closing n) calls ≡ (if handle == n then 1 else 0))
    × ((n : ℕ) → total (freeing n) calls ≡ (if info == n then 1 else 0))

-- Whether `Start` works: it makes both threads go, or its assertion fails.
abbrev pub Starts : Bool → Server → Type 0
Starts true s = (t : Server) × (start s ≡ ok t) × (listens t ≡ true) × (sends_on t ≡ true)
Starts false s = start s ≡ fault assertion

-- A server whose address is resolved and whose socket came into being is valid and can be started
-- just when bind worked; otherwise `Start` fails its assertion. Whatever its threads and its
-- peers are in the meantime, as long as its socket is as it was: once it is stopped it no longer
-- runs, has no peers, and neither of its threads goes on; and by the end of its life the handle
-- has been closed and the address list freed exactly once, and nothing else.
pub server_life :
    (port info handle : ℕ) (bound : Bool)
    → (s : Server) × (calls : List Call) × (make_server port (some info) (some handle) bound
        ≡ ok (s, calls))
      × (is_running s ≡ bound)
      × Starts bound s
      × ((t : Server)
          → t.socket ≡ s.socket
          → IsOver (stop t).0 × AreReleased info handle (calls ++ destroy_server t))
unfolding make_server bind open_socket start stop destroy_server is_running listens sends_on
    is_valid close free_address_info destroy
server_life port info handle true = (
  _,
  _,
  refl,
  refl,
  (_, refl, refl, refl),
  λ t e. (stop-IsOver t, rw e ((λ n. ground arith), (λ n. ground arith))),
)
server_life port info handle false = (
  _,
  _,
  refl,
  refl,
  refl,
  λ t e. (stop-IsOver t, rw e ((λ n. ground arith), (λ n. ground arith))),
)
