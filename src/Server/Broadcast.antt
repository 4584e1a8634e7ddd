-- ===== src/Server/Broadcast.antt =====
-- `Broadcast`: who gets the message.
use gio_net.Base.{ℕ, ◌≡◌, refl, Bool, List, ok, if◌then◌else◌, Bool-cases, inl, inr}
use gio_net.Base.Map.{find}
use gio_net.Address.{NetAddress}
use gio_net.Message.{Message}
use gio_net.Connection.{Connection, schedule}
use gio_net.Server.{Server, broadcast, broadcast_body, message_packet, get_peers, set_contains}
use gio_net.Server.Each.{AreLive, member, option_map, each_lem}

module _ (same_key : NetAddress → NetAddress → Bool) where
  -- What a broadcast does to the connection of a peer.
  abbrev pub heard : Message → List NetAddress → Connection → Connection
  heard msg except c =
      if set_contains same_key except c.address then c else schedule c (message_packet msg)

  broadcast_body_total :
      (msg : Message) (except : List NetAddress) (u : Unit {0}) (c : Connection)
      → broadcast_body same_key msg except u c ≡ ok (u, heard msg except c)
  broadcast_body_total msg except u c = elim (Bool-cases (set_contains same_key except c.address)) [
    | inl h ↦ rw h refl
    | inr h ↦ rw h refl
  ]

  -- When the peers are distinct objects, a broadcast returns, leaves the table of peers and the
  -- socket as they are, and has scheduled the message once on the connection of each peer whose
  -- address is not an exception, and on no other connection.
  pub broadcast_lem :
      (msg : Message) (except : List NetAddress) (s : Server)
      → AreLive (get_peers s) s.connections
      → (t : Server) × (broadcast same_key msg except s ≡ ok t)
        × ((q : ℕ)
            → find q t.connections ≡ (
                if member q (get_peers s)
                then option_map (heard msg except) (find q s.connections)
                else find q s.connections))
        × (t.peers ≡ s.peers)
        × (t.socket ≡ s.socket)
        × (t.next_pointer ≡ s.next_pointer)
  unfolding broadcast
  broadcast_lem msg except s live =
      let (h, runs, effect) =
        each_lem (λ u. Unit {0}) (broadcast_body same_key msg except) (λ u c. u) (heard msg except)
          (λ u c r. broadcast_body_total msg except u c) (λ u c r. tt) (get_peers s) tt
          s.connections tt live in
      (record s { connections = h }, rw runs refl, effect, refl, refl, refl)
