-- ===== src/Client/Sent.antt =====
-- What a round of the thread that sends does, in a client.
use gio_net.Base.{
  ℕ, zero, suc, ◌+◌, ◌≡◌, ◌<◌, refl, sym, ◌∙◌, arith, Bool, true, false, Option, none, some, List,
  [], ◌∷◌, ◌++◌, ok, fault, assertion, Result, ◌>>=◌, ◌&&◌, if◌then◌else◌, length, Option-cases,
  inl, inr,
}
use mathlib.Core.Path.{subst}
use gio_net.Buffer.{empty}
use gio_net.Address.{NetAddress}
use gio_net.Packet.{Packet}
use gio_net.Packet.Codec.{write_packet}
use gio_net.Socket.{Socket, Call, or_close, holds, sends, udp, send_to, close, free_address_info}
use gio_net.Connection.{
  Connection, pop_ready_outgoing_packet, pop_next_ready_packet, add_ack_header, ack_bits,
  has_received_packet,
}
use gio_net.Server.Sent.{sent, sent-append, sent-close, flushed, queued}
use gio_net.Client.{Client}
use gio_net.Client.Sending.{send_ready, sending_round}

-- The datagrams of a queue for the server, each with the ack header of the connection.
abbrev pub to_server : Connection → List Packet → List (Option NetAddress × List ℕ)
to_server c [] = []
to_server c (p ∷ ps) = (none, (write_packet (add_ack_header c p) empty).payload) ∷ to_server c ps

module _ (answer : ℕ → Option ℕ) where
  -- Every call but the last works, from the n-th on, one for each packet.
  abbrev pub goes_through : ℕ → List Packet → Bool
  goes_through n [] = true
  goes_through n (p ∷ []) = true
  goes_through n (p ∷ q ∷ ps) = holds (answer n) && goes_through (n + 1) (q ∷ ps)

  -- The socket and the calls after the n-th call.
  abbrev after : ℕ → Socket → Connection → Packet → Socket × List Call
  after n s c p =
      let r =
        or_close (answer n) (sends none (write_packet (add_ack_header c p) empty).payload ∷ []) s in
      (r.1, r.2)

  -- The calls of the n-th round come before the rest.
  abbrev with_calls :
      ℕ
      → Socket
      → Connection
      → Packet
      → Result (Socket × Connection × List Call)
      → Result (Socket × Connection × List Call)
  with_calls n s c p r = r >>= λ (u, d, more). ok (u, d, (after n s c p).1 ++ more)

  -- A socket that was closed has no address to send to.
  send_ready-closed :
      (fuel n : ℕ) (s : Socket) (c : Connection) (p : Packet) (ps : List Packet)
      → s.communication_protocol ≡ udp
      → s.win_addr_info ≡ none
      → send_ready answer (suc fuel) n s (queued c (p ∷ ps)) ≡ fault assertion
  unfolding send_ready pop_ready_outgoing_packet pop_next_ready_packet send_to
  send_ready-closed fuel n s c p ps u e = rw (u, e) refl

  send_ready-step :
      (fuel n : ℕ) (s : Socket) (c : Connection) (p : Packet) (ps : List Packet) (a : ℕ)
      → s.communication_protocol ≡ udp
      → s.win_addr_info ≡ some a
      → send_ready answer (suc fuel) n s (queued c (p ∷ ps))
        ≡ with_calls n s c p (send_ready answer fuel (n + 1) (after n s c p).0 (queued c ps))
  unfolding send_ready pop_ready_outgoing_packet pop_next_ready_packet send_to add_ack_header
      ack_bits has_received_packet
  send_ready-step fuel n s c p ps a u i = simp (u, i) refl

  -- What was sent by a call, whether it worked or not.
  after-sent :
      (n : ℕ) (s : Socket) (c : Connection) (p : Packet)
      → sent (after n s c p).1 ≡ (none, (write_packet (add_ack_header c p) empty).payload) ∷ []
  after-sent n s c p = elim (Option-cases (answer n)) [
    | inl e ↦ rw e (rw (sent-close s) refl)
    | inr (k, e) ↦ rw e refl
  ]

  -- What a queue comes to.
  abbrev Outcome :
      Bool → Connection → List Packet → Result (Socket × Connection × List Call) → Type 0
  Outcome true c ps r =
      (u : Socket) × (calls : List Call) × (r ≡ ok (u, flushed c, calls))
      × (sent calls ≡ to_server c ps)
  Outcome false c ps r = r ≡ fault assertion

  -- The calls of a first packet come before the others.
  Outcome-step :
      (b : Bool) (n : ℕ) (s : Socket) (c : Connection) (p : Packet) (ps : List Packet)
      (r : Result (Socket × Connection × List Call))
      → Outcome b c ps r
      → Outcome b c (p ∷ ps) (with_calls n s c p r)
  Outcome-step true n s c p ps r (u, calls, e, same) = (
    u,
    (after n s c p).1 ++ calls,
    rw e refl,
    sent-append (after n s c p).1 calls ∙ rw (after-sent n s c p, same) refl,
  )
  Outcome-step false n s c p ps r e = rw e refl

  send_ready-queued :
      (ps : List Packet) (fuel n : ℕ) (s : Socket) (c : Connection) (a : ℕ)
      → length ps < fuel
      → s.communication_protocol ≡ udp
      → s.win_addr_info ≡ some a
      → Outcome (goes_through n ps) c ps (send_ready answer fuel n s (queued c ps))
  unfolding send_ready pop_ready_outgoing_packet pop_next_ready_packet close free_address_info
  send_ready-queued ps zero n s c a f u i = ground arith
  send_ready-queued [] (suc fuel) n s c a f u i = (s, [], refl, refl)
  send_ready-queued (p ∷ []) (suc zero) n s c a f u i = ground arith
  send_ready-queued (p ∷ []) (suc (suc fuel)) n s c a f u i =
      rw (send_ready-step (suc fuel) n s c p [] a u i)
        (Outcome-step true n s c p [] _ ((after n s c p).0, [], refl, refl))
  send_ready-queued (p ∷ q ∷ ps) (suc zero) n s c a f u i = ground arith
  send_ready-queued (p ∷ q ∷ ps) (suc (suc fuel)) n s c a f u i =
      rw (send_ready-step (suc fuel) n s c p (q ∷ ps) a u i) (elim (Option-cases (answer n)) [
        | inl e ↦ rw e (rw (send_ready-closed fuel (n + 1) (close s).0 c q ps u refl) refl)
        | inr (k, e) ↦
            let same : goes_through n (p ∷ q ∷ ps) ≡ goes_through (n + 1) (q ∷ ps) = rw e refl in
            let stays : (after n s c p).0 ≡ s = rw e refl in
            subst
              (λ b. Outcome b c (p ∷ q ∷ ps) (
                with_calls n s c p
                  (send_ready answer (suc fuel) (n + 1) (after n s c p).0 (queued c (q ∷ ps)))))
              (sym same)
              (Outcome-step (goes_through (n + 1) (q ∷ ps)) n s c p (q ∷ ps) _ (
                subst
                  (λ t.
                    Outcome (goes_through (n + 1) (q ∷ ps)) c (q ∷ ps)
                      (send_ready answer (suc fuel) (n + 1) t (queued c (q ∷ ps))))
                  (sym stays)
                  (send_ready-queued (q ∷ ps) (suc fuel) (n + 1) s c a (omega arith) u i)))
      ])

  -- A client for datagrams whose socket still has the server's address: a round of the thread
  -- that sends works when every `SendTo` but the last one works. It has then given Winsock one
  -- datagram for each packet that was ready, for that address, in order and with the ack header
  -- of the connection; the outgoing queue is empty, and only it and the socket have changed. When
  -- a `SendTo` before the last one fails, the socket is closed and its address freed, and the
  -- next one fails its assertion.
  pub sending_round_lem :
      (c : Client) (a : ℕ)
      → c.socket.communication_protocol ≡ udp
      → c.socket.win_addr_info ≡ some a
      → if goes_through 0 c.connection_to_server.outgoing.ready_packets
        then ((u : Socket) × (calls : List Call) × (sending_round answer c
              ≡ ok (
                record c { socket = u; connection_to_server = flushed c.connection_to_server },
                calls,
              ))
            × (sent calls
                ≡ to_server c.connection_to_server c.connection_to_server.outgoing.ready_packets))
        else (sending_round answer c ≡ fault assertion)
  unfolding sending_round
  sending_round_lem c a u i =
      let d = c.connection_to_server in
      let h =
        send_ready-queued d.outgoing.ready_packets (suc (length d.outgoing.ready_packets)) 0
          c.socket d a (omega arith) u i in
      go (goes_through 0 d.outgoing.ready_packets) h
    where
      go :
          (b : Bool)
          → Outcome b c.connection_to_server c.connection_to_server.outgoing.ready_packets (
              send_ready answer
                (suc (length c.connection_to_server.outgoing.ready_packets))
                0
                c.socket
                c.connection_to_server)
          → if b
            then ((u : Socket) × (calls : List Call) × (sending_round answer c
                  ≡ ok (
                    record c { socket = u; connection_to_server = flushed c.connection_to_server },
                    calls,
                  ))
                × (sent calls
                    ≡ to_server c.connection_to_server
                        c.connection_to_server.outgoing.ready_packets))
            else (sending_round answer c ≡ fault assertion)
      go true (s, calls, e, same) = (s, calls, rw e refl, same)
      go false e = rw e refl
