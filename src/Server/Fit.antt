-- ===== src/Server/Fit.antt =====
-- Each operation of a server keeps its invariants.
use mathlib.Core.Path.{subst}
use gio_net.Base.{
  ℕ, ◌≡◌, refl, sym, ap, ◌∙◌, Bool, true, false, arith, Option, none, some, List, [], ◌∷◌, ◌++◌, ok,
  ok_injective, Bool-cases, Option-cases, inl, inr, All, map, ◌<◌, ◌⊎◌,
}
use gio_net.Base.Map.{Map, find, insert}
use gio_net.Buffer.{Buffer}
use gio_net.Address.{NetAddress}
use gio_net.Packet.{Packet, is_reliable}
use gio_net.Packet.Codec.{read_packet}
use gio_net.Message.{Message}
use gio_net.Socket.{Socket, Call, udp, open_socket, bind, is_valid, close, free_address_info}
use gio_net.Connection.{
  Connection, received, schedule, get_index_for_next_packet, has_received_packet,
}
use gio_net.Connection.Invariant.{IsValid, IsArrival, schedule-IsValid}
use gio_net.Connection.Acks.Process.{process_acks_frame}
use gio_net.Connection.Received.{received_reliable, received_unreliable, received-IsValid}
use gio_net.Thread.{idle}
use gio_net.Server.{
  Server, Event, get_peers, try_get_peer, find_peer, has_peer, add_peer, peer_for, handle_datagram,
  broadcast, remove_peer, process_received_packets, set_contains, pointer_of, erase_key,
  message_packet, peer_disconnected, get_peers,
}
use gio_net.Server.Each.{AreLive, member}
use gio_net.Server.Life.{make_server}
use gio_net.Server.Broadcast.{heard, broadcast_lem}
use gio_net.Server.Drain.{drained, deliveries, process_received_packets_lem}
use gio_net.Server.Sound.{IsSound, drained-IsValid, insert-IsSound}
use gio_net.Server.Sending.{send_round}
use gio_net.Server.Sent.{flushed, send_round_lem}
use gio_net.Server.Table.{IsKeyTest, IsTable, entered-IsTable, remove_peer_lem}
use gio_net.Server.Keeps.{Changes, Changes-IsSound, Changes-IsTable, insert-IsTable}
use gio_net.Server.Datagram.{peer_for-IsReady}

received-address :
    (c d : Connection) (p : Packet)
    → IsValid c
    → IsArrival p
    → received c p ≡ ok d
    → d.address ≡ c.address
received-address c d p v arrival e = elim (Bool-cases (is_reliable p)) [
  | inl reliable ↦
      let (d1, e1, a) = received_reliable c p v reliable (arrival reliable) in
      ap (λ x. x.address) (ok_injective (sym e ∙ e1)) ∙ a.same_peer
  | inr plain ↦
      ap (λ x. x.address) (ok_injective (sym e ∙ received_unreliable c p plain))
      ∙ (process_acks_frame c p).same_address
]

flushed-IsValid : (c : Connection) → IsValid c → IsValid (flushed c)
unfolding has_received_packet
flushed-IsValid c v = record {
  kept = v.kept;
  arrived = v.arrived;
  sending = tt;
  out_sequence = v.out_sequence;
  in_sequence = v.in_sequence;
  ack_in_range = v.ack_in_range;
  ack_arrived = v.ack_arrived;
}

schedule-address : (c : Connection) (p : Packet) → (schedule c p).address ≡ c.address
unfolding schedule get_index_for_next_packet
schedule-address c p = ground arith

module _ (same_key : NetAddress → NetAddress → Bool) (k : IsKeyTest same_key) where
  -- The two invariants of a server.
  pub record IsFit (s : Server) : Type 0 where
    pub sound : IsSound s
    pub table : IsTable same_key k s

  Changes-IsFit :
      (f : Connection → Connection) (s t : Server)
      → ((c : Connection) → IsValid c → IsValid (f c))
      → ((c : Connection) → (f c).address ≡ c.address)
      → IsFit s
      → Changes f s t
      → IsFit t
  Changes-IsFit f s t valid address i ch = record {
    sound = Changes-IsSound f s t valid i.sound ch;
    table = Changes-IsTable same_key k f s t address i.table ch;
  }

  heard-IsValid :
      (msg : Message) (except : List NetAddress) (c : Connection)
      → IsValid c
      → IsValid (heard same_key msg except c)
  heard-IsValid msg except c v = elim (Bool-cases (set_contains same_key except c.address)) [
    | inl e ↦ rw e v
    | inr e ↦ rw e (schedule-IsValid (message_packet msg) v)
  ]

  heard-address :
      (msg : Message) (except : List NetAddress) (c : Connection)
      → (heard same_key msg except c).address ≡ c.address
  heard-address msg except c = elim (Bool-cases (set_contains same_key except c.address)) [
    | inl e ↦ rw e refl
    | inr e ↦ rw e (schedule-address c (message_packet msg))
  ]

  pub broadcast-IsFit :
      (msg : Message) (except : List NetAddress) (s t : Server)
      → broadcast same_key msg except s ≡ ok t
      → IsFit s
      → IsFit t
  broadcast-IsFit msg except s t e i =
      let (u, runs, effect, peers, _, same_next) =
        broadcast_lem same_key msg except s i.sound.live in
      subst IsFit (ok_injective (sym runs ∙ e)) (
        Changes-IsFit (heard same_key msg except) s u (heard-IsValid msg except)
          (heard-address msg except) i
          (record { same_peers = peers; same_next = same_next; effect = effect }))

  pub send_round-IsFit :
      (answer : ℕ → Option ℕ) (s t : Server) (calls : List Call)
      → s.socket.communication_protocol ≡ udp
      → send_round answer s ≡ ok (calls, t)
      → IsFit s
      → IsFit t
  send_round-IsFit answer s t calls u e i =
      let (made, v, runs, _, effect, peers, same_next) = send_round_lem answer s i.sound.live u in
      subst IsFit (ap (λ r. r.1) (ok_injective (sym runs ∙ e))) (
        Changes-IsFit flushed s v flushed-IsValid (λ c. refl) i
          (record { same_peers = peers; same_next = same_next; effect = effect }))

  process-IsFit :
      (s t : Server) (events : List Event)
      → process_received_packets s ≡ ok (events, t)
      → IsFit s
      → IsFit t
  process-IsFit s t events e i =
      let (v, runs, effect, peers, _, same_next) = process_received_packets_lem s i.sound.live in
      subst IsFit (ap (λ r. r.1) (ok_injective (sym runs ∙ e))) (
        Changes-IsFit drained s v drained-IsValid (λ c. refl) i
          (record { same_peers = peers; same_next = same_next; effect = effect }))

  -- The sender of a datagram is a peer before its packet is taken in.
  peer_for-IsTable :
      (s : Server) (source : NetAddress)
      → IsTable same_key k s
      → IsTable same_key k (peer_for same_key s source (try_get_peer same_key s source)).1
  unfolding try_get_peer add_peer has_peer
  peer_for-IsTable s source i = elim (Option-cases (find_peer same_key source s.peers)) [
    | inl e ↦ rw (e, e) (entered-IsTable same_key k s source i (unfold try_get_peer in e))
    | inr (p, e) ↦ rw e i
  ]

  pub datagram-IsFit :
      (source : NetAddress) (b : Buffer) (p : Packet) (rest : Buffer) (s t : Server)
      (events : List Event)
      → read_packet b ≡ ok (p, rest)
      → IsArrival p
      → handle_datagram same_key s source b ≡ ok (t, events)
      → IsFit s
      → IsFit t
  unfolding handle_datagram
  datagram-IsFit source b p rest s t events read arrival e i =
      let (q, c, is_q, there, in_table, sound, _, _) =
        peer_for-IsReady same_key k.reflexive s source i.sound in
      let s1 = (peer_for same_key s source (try_get_peer same_key s source)).1 in
      let (d, returns, valid) = received-IsValid p (sound.valid q c there) arrival in
      let s2 : Server = record s1 { connections = insert q d s1.connections } in
      let fit : IsFit s2 = record {
        sound = insert-IsSound s1 q d sound valid;
        table =
            insert-IsTable same_key k s1 q c d there
              (received-address c d p (sound.valid q c there) arrival returns)
              (peer_for-IsTable s source i.table);
      } in
      let (v, runs, effect, peers, _, same_next) = process_received_packets_lem s2 fit.sound.live in
      let all_runs : handle_datagram same_key s source b
          ≡ ok (
            v,
            (peer_for same_key s source (try_get_peer same_key s source)).2
                ++ deliveries (get_peers s2) s2.connections,
          ) =
        rw is_q (rw read (rw there (rw returns (rw runs refl)))) in
      subst IsFit (ap (λ r. r.0) (ok_injective (sym all_runs ∙ e)))
        (process-IsFit s2 v (deliveries (get_peers s2) s2.connections) runs fit)

  -- What is left of the table when a key is erased.
  erase_key-member :
      (a : NetAddress) (q : ℕ) (peers : List (NetAddress × ℕ))
      → member q (map pointer_of peers) ≡ false
      → member q (map pointer_of (erase_key same_key a peers)) ≡ false
  erase_key-member a q [] h = refl
  erase_key-member a q ((key, p) ∷ rest) h = elim (Bool-cases (same_key key a)) [
    | inl e ↦ rw e (ground arith)
    | inr e ↦ rw e (ground (arith, erase_key-member a q rest))
  ]

  erase_key-AreLive :
      (a : NetAddress) (h : Map Connection) (peers : List (NetAddress × ℕ))
      → AreLive (map pointer_of peers) h
      → AreLive (map pointer_of (erase_key same_key a peers)) h
  erase_key-AreLive a h [] l = tt
  erase_key-AreLive a h ((key, p) ∷ rest) l = elim (Bool-cases (same_key key a)) [
    | inl e ↦ rw e l.2
    | inr e ↦ rw e (l.0, erase_key-member a p rest l.1, erase_key-AreLive a h rest l.2)
  ]

  erase_key-All :
      (a : NetAddress) (n : ℕ) (peers : List (NetAddress × ℕ))
      → All (λ p. p < n) (map pointer_of peers)
      → All (λ p. p < n) (map pointer_of (erase_key same_key a peers))
  erase_key-All a n [] l = tt
  erase_key-All a n ((key, p) ∷ rest) l = elim (Bool-cases (same_key key a)) [
    | inl e ↦ rw e l.1
    | inr e ↦ rw e (l.0, erase_key-All a n rest l.1)
  ]

  pub remove_peer-IsFit :
      (a : NetAddress) (p : ℕ) (s t : Server) (events : List Event)
      → try_get_peer same_key s a ≡ some p
      → remove_peer same_key s p ≡ ok (t, events)
      → IsFit s
      → IsFit t
  remove_peer-IsFit a p s t events found e i =
      let (u, c, there, runs, table, _, _) = remove_peer_lem same_key k s a p i.table found in
      record {
        sound = removed c there (Bool-cases (has_peer same_key s c.address));
        table = subst (IsTable same_key k) (ap (λ r. r.0) (ok_injective (sym runs ∙ e))) table;
      }
    where
      removed :
          (c : Connection)
          → find p s.connections ≡ some c
          → (has_peer same_key s c.address ≡ true) ⊎ (has_peer same_key s c.address ≡ false)
          → IsSound t
      removed c there (inl h) =
          let runs : remove_peer same_key s p
              ≡ ok (
                record s { peers = erase_key same_key c.address s.peers },
                peer_disconnected c.address ∷ [],
              ) =
            unfold remove_peer in rw (there, h) refl in
          subst IsSound (ap (λ r. r.0) (ok_injective (sym runs ∙ e))) (
            unfold get_peers in
            record {
              live =
                  erase_key-AreLive c.address s.connections s.peers
                    (unfold get_peers in i.sound.live);
              fresh =
                  erase_key-All c.address s.next_pointer s.peers
                    (unfold get_peers in i.sound.fresh);
              valid = i.sound.valid;
            })
      removed c there (inr h) =
          let runs : remove_peer same_key s p ≡ ok (s, []) =
            unfold remove_peer in rw (there, h) refl in
          subst IsSound (ap (λ r. r.0) (ok_injective (sym runs ∙ e))) i.sound

  -- A server without peers and connections.
  abbrev empty_server : Socket → Server
  empty_server x = record {
    socket = x;
    peers = [];
    connections = [];
    next_pointer = 0;
    listen_thread = idle;
    send_thread = idle;
  }

  empty_server-IsFit : (x : Socket) → IsFit (empty_server x)
  unfolding get_peers find try_get_peer find_peer
  empty_server-IsFit x = record {
    sound = record { live = tt; fresh = tt; valid = λ q c e. cc };
    table = record { distinct = tt; keyed = λ a p e. impossible e; fresh = λ a p e. impossible e };
  }
    where
      impossible : {A : Type 0} {p : ℕ} → none ≡ some p → A
      impossible e = cc

  pub made-IsFit :
      (port info handle : ℕ) (bound : Bool) (s : Server) (calls : List Call)
      → make_server port (some info) (some handle) bound ≡ ok (s, calls)
      → IsFit s
  unfolding make_server open_socket bind is_valid close free_address_info
  made-IsFit port info handle true s calls h =
      subst IsFit (ap (λ r. r.0) (ok_injective h)) (empty_server-IsFit _)
  made-IsFit port info handle false s calls h =
      subst IsFit (ap (λ r. r.0) (ok_injective h)) (empty_server-IsFit _)
