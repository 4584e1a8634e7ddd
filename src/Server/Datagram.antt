-- ===== src/Server/Datagram.antt =====
-- One round of the thread that listens, from a datagram to the calls of the delegate.
use mathlib.Core.Path.{subst, sym}
use mathlib.Core.Option.{some_inj}
use gio_net.Base.{
  ◌⊎◌, ◌∙◌, none, ℕ, ◌+◌, ◌≡◌, refl, Bool, true, arith, Option, some, List, [], ◌∷◌, ◌++◌, ok, map,
  ap, Option-cases, Bool-cases, inl, inr,
}
use gio_net.Base.Map.{Map, find, insert, find-insert}
use gio_net.Buffer.{Buffer}
use gio_net.Address.{NetAddress}
use gio_net.Packet.{Packet}
use gio_net.Packet.Codec.{read_packet}
use gio_net.Connection.{received, Connection, new_connection}
use gio_net.Connection.Invariant.{IsArrival, new_connection-IsValid}
use gio_net.Connection.Received.{received-IsValid}
use gio_net.Server.{
  Server, Event, get_peers, find_peer, try_get_peer, has_peer, add_peer, peer_for, handle_datagram,
  pointer_of, peer_connected,
}
use gio_net.Server.Each.{AreLive-insert, member}
use gio_net.Server.Sound.{
  IsSound, AreLive-member, not_member, All-lt-suc, insert-IsValid, insert-IsSound,
}
use gio_net.Server.Drain.{drained, deliveries, deliveries-same}
use gio_net.Server.Processed.{IsDrained, process_received_packets-IsSound}

-- The connection `c` of a source before its datagram: the one in the table, or a new one, which
-- the user is told of. What the user is told, and the table of peers after it.
abbrev Before :
    (NetAddress → NetAddress → Bool)
    → Server
    → NetAddress
    → ℕ
    → Connection
    → List Event
    → List (NetAddress × ℕ)
    → Type 0
Before same_key s source p c made peers =
    ((try_get_peer same_key s source ≡ some p)
      × (find p s.connections ≡ some c)
      × (made ≡ [])
      × (peers ≡ s.peers))
    ⊎ ((try_get_peer same_key s source ≡ none)
        × (c ≡ new_connection source)
        × (made ≡ peer_connected source ∷ [])
        × (peers ≡ (source, p) ∷ s.peers))

-- The packet of the datagram went to that connection, which is stored without its queue, and the
-- user was told of a new peer and then got what was ready with each peer.
abbrev pub Delivered :
    (NetAddress → NetAddress → Bool) → Server → NetAddress → Packet → Server → List Event → Type 0
Delivered same_key s source packet t events =
    (p : ℕ) × (c : Connection) × (d : Connection) × (made : List Event) × Before same_key s source p
      c made t.peers
    × (received c packet ≡ ok d)
    × (try_get_peer same_key t source ≡ some p)
    × (find p t.connections ≡ some (drained d))
    × (events ≡ made ++ deliveries (get_peers t) (insert p d s.connections))

-- What is known once the peer of a datagram is found or added.
abbrev pub IsReady :
    (NetAddress → NetAddress → Bool) → Server → NetAddress → Option ℕ × Server × List Event → Type 0
IsReady same_key s source r =
    (p : ℕ) × (c : Connection) × (r.0 ≡ some p)
    × (find p r.1.connections ≡ some c)
    × (try_get_peer same_key r.1 source ≡ some p)
    × IsSound r.1
    × Before same_key s source p c r.2 r.1.peers
    × ((q : ℕ) (d : Connection)
        → find q (insert p d r.1.connections) ≡ find q (insert p d s.connections))

-- What is stored last counts.
insert-twice :
    (p : ℕ) (c : Connection) (h : Map Connection) (q : ℕ) (d : Connection)
    → find q (insert p d (insert p c h)) ≡ find q (insert p d h)
insert-twice p c h q d =
    ground (arith, find-insert p q d (insert p c h), find-insert p q c h, find-insert p q d h)

module _ (same_key : NetAddress → NetAddress → Bool)
    (reflexive : (a : NetAddress) → same_key a a ≡ true) where
  pub find_peer-member :
      (a : NetAddress) (peers : List (NetAddress × ℕ)) (p : ℕ)
      → find_peer same_key a peers ≡ some p
      → member p (map pointer_of peers) ≡ true
  unfolding find_peer
  find_peer-member a [] p e = cc
  find_peer-member a ((key, q) ∷ rest) p e = elim (Bool-cases (same_key key a)) [
    | inl h ↦ ground (arith, some_inj.0 (rw h at e))
    | inr h ↦ ground (arith, find_peer-member a rest p (rw h at e))
  ]

  -- The server with a new peer.
  abbrev added : Server → NetAddress → Server
  added s a = record s {
    peers = (a, s.next_pointer) ∷ s.peers;
    connections = insert s.next_pointer (new_connection a) s.connections;
    next_pointer = s.next_pointer + 1;
  }

  added-found :
      (s : Server) (a : NetAddress)
      → find s.next_pointer (added s a).connections ≡ some (new_connection a)
  added-found s a =
      rw (find-insert s.next_pointer s.next_pointer (new_connection a) s.connections) (ground arith)

  added-IsSound : (s : Server) (a : NetAddress) → IsSound s → IsSound (added s a)
  unfolding get_peers
  added-IsSound s a k = record {
    live = (
      rw (added-found s a) refl,
      not_member (get_peers s) s.next_pointer k.fresh,
      AreLive-insert (get_peers s) s.next_pointer (new_connection a) s.connections k.live,
    );
    fresh = (omega arith, All-lt-suc (get_peers s) s.next_pointer k.fresh);
    valid =
        insert-IsValid s.connections s.next_pointer (new_connection a) k.valid
          (new_connection-IsValid a);
  }

  found-IsReady :
      (s : Server) (source : NetAddress) (p : ℕ)
      → IsSound s
      → find_peer same_key source s.peers ≡ some p
      → IsReady same_key s source (some p, s, [])
  unfolding get_peers try_get_peer
  found-IsReady s source p k e = elim (Option-cases (find p s.connections)) [
    | inl n ↦ ground (
      arith,
      n,
      AreLive-member (get_peers s) s.connections p k.live (find_peer-member source s.peers p e),
    )
    | inr (c, there) ↦ (p, c, refl, there, e, k, inl (e, there, refl, refl), λ q d. refl)
  ]

  pub peer_for-IsReady :
      (s : Server) (source : NetAddress)
      → IsSound s
      → IsReady same_key s source (peer_for same_key s source (try_get_peer same_key s source))
  unfolding try_get_peer add_peer has_peer
  peer_for-IsReady s source k = elim (Option-cases (find_peer same_key source s.peers)) [
    | inl e ↦
        let here : find_peer same_key source (added s source).peers ≡ some s.next_pointer =
          unfold find_peer in rw (reflexive source) refl in
        let ready : IsReady same_key s source
            (some s.next_pointer, added s source, peer_connected source ∷ []) =
          (
            s.next_pointer,
            new_connection source,
            refl,
            added-found s source,
            here,
            added-IsSound s source k,
            inr (e, refl, refl, refl),
            insert-twice s.next_pointer (new_connection source) s.connections,
          ) in
        let added_now : peer_for same_key s source (try_get_peer same_key s source)
            ≡ (some s.next_pointer, added s source, peer_connected source ∷ []) =
          rw (e, e) refl in
        subst (IsReady same_key s source) (sym added_now) ready
    | inr (p, e) ↦
        let found_now : peer_for same_key s source (try_get_peer same_key s source)
            ≡ (some p, s, []) =
          rw e refl in
        subst (IsReady same_key s source) (sym found_now) (found-IsReady s source p k e)
  ]

  -- When the table takes every address for the same key as itself, a sound server that gets a
  -- datagram with a packet (unreliable, or with an id) from any address goes through the round
  -- without a fault. The sender is a peer then, and the packet went through `Received` of the
  -- connection that the table had for it, or of a new one. The delegates are told that a peer has
  -- connected if it is new, and then get the data packets that are ready, peer by peer and in the
  -- order of each queue, those that this packet has made ready among them, and nothing else. No
  -- packet that is ready is left with any peer, and the server is sound.
  pub handle_datagram_lem :
      (s : Server) (source : NetAddress) (b : Buffer) (p : Packet) (rest : Buffer)
      → IsSound s
      → read_packet b ≡ ok (p, rest)
      → IsArrival p
      → (t : Server) × (events : List Event) × (handle_datagram same_key s source b
          ≡ ok (t, events))
        × Delivered same_key s source p t events
        × IsDrained t
        × IsSound t
  unfolding handle_datagram try_get_peer get_peers
  handle_datagram_lem s source b p rest k read arrival =
      let (q, c, is_q, there, in_table, sound, before, stored) = peer_for-IsReady s source k in
      let (_, s1, made) = peer_for same_key s source (try_get_peer same_key s source) in
      let (d, returns, valid) = received-IsValid p (sound.valid q c there) arrival in
      let (t, runs, t_sound, t_drained, same_peers, effect) =
        process_received_packets-IsSound (record s1 { connections = insert q d s1.connections })
          (insert-IsSound s1 q d sound valid) in
      let same = deliveries-same (get_peers s1) _ (insert q d s.connections) (λ i. stored i d) in
      (
        t,
        made ++ deliveries (get_peers s1) (insert q d s1.connections),
        rw is_q (rw read (rw there (rw returns (rw runs refl)))),
        (
          q,
          c,
          d,
          made,
          rw same_peers before,
          returns,
          rw same_peers in_table,
          effect q
              ∙ rw (find_peer-member source s1.peers q in_table, find-insert q q d s1.connections)
                  (ground arith),
          rw same_peers (ap (λ es. made ++ es) same),
        ),
        t_drained,
        t_sound,
      )
