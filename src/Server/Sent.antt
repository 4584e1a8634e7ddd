-- ===== src/Server/Sent.antt =====
-- What a round of the thread that sends does.
use gio_net.Base.{
  ℕ, zero, suc, ◌+◌, ◌≡◌, ◌<◌, refl, sym, ◌∙◌, arith, Option, none, some, List, [], ◌∷◌, ◌++◌, ok,
  if◌then◌else◌, append_assoc, append-nil, length, Option-cases, inl, inr,
}
use gio_net.Base.Map.{Map, find}
use gio_net.Buffer.{empty}
use gio_net.Address.{NetAddress}
use gio_net.Packet.{Packet}
use gio_net.Packet.Codec.{write_packet}
use gio_net.Socket.{
  Socket, Call, closes, frees, sends, udp, send_to, close, free_address_info, or_close,
}
use gio_net.Connection.{
  Connection, pop_ready_outgoing_packet, pop_next_ready_packet, add_ack_header, ack_bits,
  has_received_packet,
}
use gio_net.Server.{Server, get_peers}
use gio_net.Server.Each.{AreLive, member, option_map, state_after, next, each_lem}
use gio_net.Server.Sending.{Link, send_packet, send_peer, send_body, send_round}

-- What the calls send, with the addresses.
abbrev sent_by : Call → List (Option NetAddress × List ℕ)
sent_by (closes h) = []
sent_by (frees a) = []
sent_by (sends to bytes) = (to, bytes) ∷ []

abbrev pub sent : List Call → List (Option NetAddress × List ℕ)
sent [] = []
sent (c ∷ cs) = sent_by c ++ sent cs

-- The datagrams of a queue, each with the ack header of the connection.
abbrev pub queue_datagrams : Connection → List Packet → List (Option NetAddress × List ℕ)
queue_datagrams c [] = []
queue_datagrams c (p ∷ ps) =
    (some c.address, (write_packet (add_ack_header c p) empty).payload) ∷ queue_datagrams c ps

abbrev waiting : Option Connection → List (Option NetAddress × List ℕ)
waiting none = []
waiting (some c) = queue_datagrams c c.outgoing.ready_packets

-- The datagrams of the peers, one peer after the other.
abbrev pub datagrams : List ℕ → Map Connection → List (Option NetAddress × List ℕ)
datagrams [] h = []
datagrams (p ∷ ps) h = waiting (find p h) ++ datagrams ps h

abbrev pub flushed : Connection → Connection
flushed c = record c { outgoing = record c.outgoing { ready_packets = [] } }

abbrev pub queued : Connection → List Packet → Connection
queued c ps = record c { outgoing = record c.outgoing { ready_packets = ps } }

pub sent-append : (xs ys : List Call) → sent (xs ++ ys) ≡ sent xs ++ sent ys
sent-append [] ys = refl
sent-append (x ∷ xs) ys =
    rw (sent-append xs ys) (sym (append_assoc (sent_by x) (sent xs) (sent ys)))

-- The link is for datagrams.
abbrev IsUdp : Link → Type 0
IsUdp l = l.socket.communication_protocol ≡ udp

pub sent-close : (s : Socket) → sent (close s).1 ≡ []
unfolding close free_address_info
sent-close s = elim (Option-cases s.win_addr_info) [
  | inl e ↦ elim (Option-cases s.win_socket) [
    | inl n ↦ rw (e, n) refl
    | inr (h, n) ↦ rw (e, n) refl
  ]
  | inr (a, e) ↦ elim (Option-cases s.win_socket) [
    | inl n ↦ rw (e, n) refl
    | inr (h, n) ↦ rw (e, n) refl
  ]
]

module _ (answer : ℕ → Option ℕ) where
  -- The link after a packet went out.
  abbrev next_link : Link → Connection → Packet → Link
  next_link l c p =
      let r =
        or_close (answer l.count) (sends (some c.address) (write_packet p empty).payload ∷ [])
          l.socket in
      record { socket = r.1; calls = l.calls ++ r.2; count = l.count + 1 }

  abbrev all_links : Link → Connection → List Packet → Link
  all_links l c [] = l
  all_links l c (p ∷ ps) = all_links (next_link l c (add_ack_header c p)) c ps

  next_link-IsUdp : (l : Link) (c : Connection) (p : Packet) → IsUdp l → IsUdp (next_link l c p)
  unfolding close free_address_info
  next_link-IsUdp l c p u = elim (Option-cases (answer l.count)) [
    | inl e ↦ rw e u
    | inr (n, e) ↦ rw e u
  ]

  next_link-sent :
      (l : Link) (c : Connection) (p : Packet)
      → sent (next_link l c p).calls
        ≡ sent l.calls ++ (some c.address, (write_packet p empty).payload) ∷ []
  next_link-sent l c p = elim (Option-cases (answer l.count)) [
    | inl e ↦ rw e (
        rw
          (
            sent-append l.calls
                (sends (some c.address) (write_packet p empty).payload ∷ (close l.socket).1),
            sent-close l.socket,
          )
          refl)
    | inr (n, e) ↦
        rw e (sent-append l.calls (sends (some c.address) (write_packet p empty).payload ∷ []))
  ]

  send_packet-next_link :
      (l : Link) (c : Connection) (p : Packet)
      → IsUdp l
      → send_packet answer l c p ≡ ok (next_link l c p)
  unfolding send_to
  send_packet-next_link l c p u = rw u refl

  all_links-IsUdp :
      (l : Link) (c : Connection) (ps : List Packet) → IsUdp l → IsUdp (all_links l c ps)
  all_links-IsUdp l c [] u = u
  all_links-IsUdp l c (p ∷ ps) u =
      all_links-IsUdp (next_link l c (add_ack_header c p)) c ps
        (next_link-IsUdp l c (add_ack_header c p) u)

  all_links-sent :
      (l : Link) (c : Connection) (ps : List Packet)
      → sent (all_links l c ps).calls ≡ sent l.calls ++ queue_datagrams c ps
  all_links-sent l c [] = sym (append-nil (sent l.calls))
  all_links-sent l c (p ∷ ps) =
      all_links-sent (next_link l c (add_ack_header c p)) c ps
      ∙ rw (next_link-sent l c (add_ack_header c p)) (
          append_assoc (sent l.calls)
            ((some c.address, (write_packet (add_ack_header c p) empty).payload) ∷ [])
            (queue_datagrams c ps))

  send_peer-queued :
      (l : Link) (c : Connection) (ps : List Packet) (fuel : ℕ)
      → IsUdp l
      → length ps < fuel
      → send_peer answer fuel l (queued c ps) ≡ ok (all_links l c ps, flushed c)
  unfolding send_peer pop_ready_outgoing_packet pop_next_ready_packet add_ack_header ack_bits
      has_received_packet
  send_peer-queued l c [] zero u f = ground arith
  send_peer-queued l c [] (suc fuel) u f = refl
  send_peer-queued l c (p ∷ ps) zero u f = ground arith
  send_peer-queued l c (p ∷ ps) (suc fuel) u f =
      rw (send_packet-next_link l c (add_ack_header c p) u) (
        send_peer-queued (next_link l c (add_ack_header c p)) c ps fuel
          (next_link-IsUdp l c (add_ack_header c p) u) (omega arith))

  abbrev links : Link → Connection → Link
  links l c = all_links l c c.outgoing.ready_packets

  state_after-sent :
      (ps : List ℕ) (l : Link) (h : Map Connection)
      → sent (state_after links ps l h).calls ≡ sent l.calls ++ datagrams ps h
  state_after-sent [] l h = sym (append-nil (sent l.calls))
  state_after-sent (p ∷ ps) l h =
      elim (find p h)
        as (λ o.
          sent (state_after links ps (next links l o) h).calls
          ≡ sent l.calls ++ (waiting o ++ datagrams ps h)) [
            | none ↦ state_after-sent ps l h
            | some c ↦
                state_after-sent ps (links l c) h
                ∙ rw (all_links-sent l c c.outgoing.ready_packets) (
                    append_assoc (sent l.calls) (queue_datagrams c c.outgoing.ready_packets)
                      (datagrams ps h))
          ]

  -- When the peers are distinct objects and the socket is one for datagrams, a round of the
  -- thread that sends returns, whatever Winsock answers. It has given Winsock one datagram for
  -- each packet that was ready, for the address of its connection and with the ack header of that
  -- connection, peer by peer and in the order of each queue; every peer's outgoing queue is empty
  -- then, and all else in the store and the table is as it was.
  pub send_round_lem :
      (s : Server)
      → AreLive (get_peers s) s.connections
      → s.socket.communication_protocol ≡ udp
      → (calls : List Call) × (t : Server) × (send_round answer s ≡ ok (calls, t))
        × (sent calls ≡ datagrams (get_peers s) s.connections)
        × ((q : ℕ)
            → find q t.connections ≡ (
                if member q (get_peers s)
                then option_map flushed (find q s.connections)
                else find q s.connections))
        × (t.peers ≡ s.peers)
        × (t.next_pointer ≡ s.next_pointer)
  unfolding send_round
  send_round_lem s live u =
      let start : Link = record { socket = s.socket; calls = []; count = 0 } in
      let (h, runs, effect) =
        each_lem IsUdp (send_body answer) links flushed
          (λ l c v.
            send_peer-queued l c c.outgoing.ready_packets (suc (length c.outgoing.ready_packets)) v
              (omega arith))
          (λ l c v. all_links-IsUdp l c c.outgoing.ready_packets v) (get_peers s) start
          s.connections u live in
      let last = state_after links (get_peers s) start s.connections in
      (
        last.calls,
        record s { socket = last.socket; connections = h },
        rw runs refl,
        state_after-sent (get_peers s) start s.connections,
        effect,
        refl,
        refl,
      )
