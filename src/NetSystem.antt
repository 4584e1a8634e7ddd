-- ===== src/NetSystem.antt =====
-- GioNet/inc/NetSystem.h and GioNet/src/NetSystem.cpp: the one object that starts Winsock, and
-- makes servers and clients. The calls that start and stop Winsock are listed in order.
use gio_net.Base.{
  ℕ, ◌≡◌, refl, arith, Bool, true, false, not, ◌&&◌, Option, List, [], ◌∷◌, ◌++◌, Result,
  if◌then◌else◌,
}
use gio_net.Socket.{Call}
use gio_net.Server.{Server}
use gio_net.Server.Life.{make_server}
use gio_net.Client.{Client, make_client}

pub data StartCall : Type 0 where
  wsa_startup wsa_cleanup : StartCall

-- Whether there is an instance, and what was called so far.
pub record NetSystem : Type 0 where
  pub instance : Bool
  pub calls : List StartCall

abbrev pub initial : NetSystem
initial = record { instance = false; calls = [] }

-- `Get`: the constructor starts Winsock, and goes on when that fails.
unfoldable pub get : NetSystem → NetSystem
get s = if s.instance then s else record { instance = true; calls = s.calls ++ (wsa_startup ∷ []) }

-- `Reset`: the destructor of the instance stops Winsock.
unfoldable pub reset : NetSystem → NetSystem
reset s =
    if s.instance then record { instance = false; calls = s.calls ++ (wsa_cleanup ∷ []) } else s

-- `CreateServer` and `CreateClient`, on the answers of getaddrinfo, socket and bind.
unfoldable pub create_server : ℕ → Option ℕ → Option ℕ → Bool → Result (Server × List Call)
unfolding make_server
create_server port info handle bound = make_server port info handle bound

unfoldable pub create_client : List ℕ → ℕ → Option ℕ → Option ℕ → Client × List Call
unfolding make_client
create_client ip port info handle = make_client (record { ip = ip; port = port }) info handle

pub data Use : Type 0 where
  gets resets : Use

abbrev pub use_once : Use → NetSystem → NetSystem
use_once gets s = get s
use_once resets s = reset s

abbrev pub use_all : List Use → NetSystem → NetSystem
use_all [] s = s
use_all (u ∷ us) s = use_all us (use_once u s)

-- Starts and stops take turns, a start first.
abbrev alternates : Bool → List StartCall → Bool
alternates running [] = true
alternates running (wsa_startup ∷ cs) = not running && alternates true cs
alternates running (wsa_cleanup ∷ cs) = running && alternates false cs

-- Whether Winsock runs after the calls.
abbrev runs_after : Bool → List StartCall → Bool
runs_after running [] = running
runs_after running (wsa_startup ∷ cs) = runs_after true cs
runs_after running (wsa_cleanup ∷ cs) = runs_after false cs

alternates-append :
    (b : Bool) (xs ys : List StartCall)
    → alternates b (xs ++ ys) ≡ (alternates b xs && alternates (runs_after b xs) ys)
alternates-append b [] ys = refl
alternates-append b (wsa_startup ∷ xs) ys = ground (arith, alternates-append true xs ys)
alternates-append b (wsa_cleanup ∷ xs) ys = ground (arith, alternates-append false xs ys)

runs_after-append :
    (b : Bool) (xs ys : List StartCall) → runs_after b (xs ++ ys) ≡ runs_after (runs_after b xs) ys
runs_after-append b [] ys = refl
runs_after-append b (wsa_startup ∷ xs) ys = runs_after-append true xs ys
runs_after-append b (wsa_cleanup ∷ xs) ys = runs_after-append false xs ys

-- Winsock has been started and stopped in turns, and runs just when there is an instance.
abbrev IsBalanced : NetSystem → Type 0
IsBalanced s = (alternates false s.calls ≡ true) × (runs_after false s.calls ≡ s.instance)

use_once-IsBalanced : (u : Use) (s : NetSystem) → IsBalanced s → IsBalanced (use_once u s)
unfolding get reset
use_once-IsBalanced gets s b = ground (
  arith,
  alternates-append false s.calls (wsa_startup ∷ []),
  runs_after-append false s.calls (wsa_startup ∷ []),
)
use_once-IsBalanced resets s b = ground (
  arith,
  alternates-append false s.calls (wsa_cleanup ∷ []),
  runs_after-append false s.calls (wsa_cleanup ∷ []),
)

use_all-IsBalanced : (us : List Use) (s : NetSystem) → IsBalanced s → IsBalanced (use_all us s)
use_all-IsBalanced [] s b = b
use_all-IsBalanced (u ∷ us) s b = use_all-IsBalanced us (use_once u s) (use_once-IsBalanced u s b)

-- However often `Get` and `Reset` are called, Winsock is started and stopped in turns, a start
-- first, and runs just when there is an instance.
pub net_system-IsBalanced : (us : List Use) → IsBalanced (use_all us initial)
net_system-IsBalanced us = use_all-IsBalanced us initial (refl, refl)
