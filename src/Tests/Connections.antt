-- ===== src/Tests/Connections.antt =====
-- GioNetTests/src/ServerTests.cpp: the test that starts a server and clients, on the answers of
-- Winsock, and waits for them. What the clock says is a number of its ticks.
use gio_net.Base.{
  ℕ, suc, ◌-◌, ◌/◌, ◌≡◌, ◌≤◌, refl, arith, Bool, true, false, ◌&&◌, Option, List, [], ◌∷◌, ◌++◌,
  All, Result, ok, ◌>>=◌, if◌then◌else◌, length, ◌==◌, ltb, bytes_of,
}
use native.Mathlib.Nat.{zero-div}
use gio_net.Address.{default_port}
use gio_net.Client.{Client, is_connected, start}
use gio_net.Server.{Server, get_connected_peer_count}
use gio_net.Server.Life
use gio_net.NetSystem.{create_server, create_client}

abbrev all_connected : List Client → Bool
all_connected [] = true
all_connected (c ∷ cs) = is_connected c && all_connected cs

-- `AllClientsConnected`
unfoldable pub all_clients_connected : Server → List Client → Bool
all_clients_connected s clients =
    all_connected clients && get_connected_peer_count s == length clients

-- What Winsock answers to one client: getaddrinfo, socket and sendto.
pub record Answers : Type 0 where
  pub info : Option ℕ
  pub handle : Option ℕ
  pub count : Option ℕ

-- The loop that makes the clients and starts them, one for each of the answers.
unfoldable pub startup_clients : List Answers → List Client → Result (List Client)
startup_clients [] clients = ok clients
startup_clients (a ∷ more) clients =
    let (client, calls) = create_client (bytes_of "localhost") default_port a.info a.handle in
    do (started, sent) ← start client a.count; startup_clients more (clients ++ (started ∷ []))

-- `StartupServerAndClients`, up to the wait.
unfoldable pub startup_server_and_clients :
    Option ℕ → Option ℕ → Bool → List Answers → Result (Server × List Client)
startup_server_and_clients info handle bound answers = do
  (server, calls) ← create_server default_port info handle bound
  started ← Life.start server
  clients ← startup_clients answers []
  ok (started, clients)

-- The ticks of the clock in a second.
module _ (second : ℕ) where
  -- `elapsed > 10.f`, where `elapsed` is start - now in whole seconds. A difference below zero is
  -- no more than 10 whatever it is, and so is the 0 here.
  unfoldable pub timed_out : ℕ → ℕ → Bool
  timed_out start now = ltb 10 ((start - now) / second)

  -- The wait, on the rounds of its loop: whether all are connected, and the time in the round.
  -- The number of failures that are added; with no round left, the test still waits.
  unfoldable pub wait : ℕ → List (Bool × ℕ) → ℕ
  unfolding timed_out
  wait start [] = 0
  wait start ((connected, now) ∷ rounds) =
      let rest = wait start rounds in
      if connected then 0 else (if timed_out start now then suc rest else rest)

  timed_out-late : (start now : ℕ) → start ≤ now → timed_out start now ≡ false
  unfolding timed_out
  timed_out-late start now k =
      let none_left : start - now ≡ 0 = omega arith in
      let none_over : 0 / second ≡ 0 = zero-div second in rw (none_left, none_over) refl

  -- The wait adds no failure in any round, however many there are and however late they are, as
  -- long as the clock is not set back behind the start: it does not time out.
  pub wait-no_failure :
      (start : ℕ) (rounds : List (Bool × ℕ)) → All (λ r. start ≤ r.1) rounds → wait start rounds ≡ 0
  unfolding wait
  wait-no_failure start [] h = refl
  wait-no_failure start ((connected, now) ∷ rounds) h =
      rw (timed_out-late start now h.0, wait-no_failure start rounds h.1) (ground arith)
