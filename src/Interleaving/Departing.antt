-- ===== src/Interleaving/Departing.antt =====
-- The thread that sends brings a packet to the wire, from wherever it is, once the other thread
-- is free.
use gio_net.Base.{ℕ, ◌-◌, zero, suc, ◌+◌, ◌≡◌, refl, arith, List, [], ◌∷◌, ◌++◌}
use gio_net.Packet.{Packet}
use gio_net.Connection.{ack_count}
use gio_net.Interleaving.{
  Host, free, Sender, resting, popped, checking, loads, checks, sends, host_loads, host_checks,
  host_sends,
}
use gio_net.Interleaving.Runs.{Runs, stays, moves, SenderWithin}

-- The packet, with a header of its own.
pub record Leaves (p : Packet) (before after : List Packet) : Type 0 where
  pub packet : Packet
  pub at_end : after ≡ before ++ (packet ∷ [])
  pub same_header : packet.header ≡ p.header
  pub same_id : packet.id ≡ p.id
  pub same_payload : packet.payload ≡ p.payload

abbrev pub Departs : Sender → List Packet → List Packet → Type 0
Departs resting before after = after ≡ before
Departs (popped p) before after = Leaves p before after
Departs (checking p n) before after = Leaves p before after

-- The thread that sends is through, while the other is free.
record IsSent (b a a1 : Host) (p : Packet) : Type 0 where
  run : Runs b a a1
  idle : a1.listener ≡ free
  rests : a1.sender ≡ resting
  same_connection : a1.side.connection ≡ a.side.connection
  leaves : Leaves p a.side.wire a1.side.wire

-- The header is no part of what is said.
reheaded :
    {p : Packet} {id bitset : ℕ} {before after : List Packet}
    → Leaves (record p { ack_id = id; ack_bitset = bitset }) before after
    → Leaves p before after
reheaded l = record {
  packet = l.packet;
  at_end = l.at_end;
  same_header = l.same_header;
  same_id = l.same_id;
  same_payload = l.same_payload;
}

sends_checked :
    (rounds n : ℕ) (a b : Host) (p : Packet)
    → n + rounds ≡ ack_count
    → a.listener ≡ free
    → a.sender ≡ checking p n
    → (a1 : Host) × IsSent b a a1 p
unfolding host_checks host_sends
sends_checked zero n a b p left idle e =
    let last : n ≡ ack_count = omega (arith, left) in
    (
      host_sends p a,
      record {
        run = moves (sends p (rw last at e)) stays;
        idle = idle;
        rests = refl;
        same_connection = refl;
        leaves = record {
          packet = p;
          at_end = refl;
          same_header = refl;
          same_id = refl;
          same_payload = refl;
        };
      },
    )
sends_checked (suc rounds) n a b p left idle e =
    let (a1, h) =
      sends_checked rounds (suc n) (host_checks p n a) b _ (omega (arith, left)) idle refl in
    (
      a1,
      record {
        run = moves (checks p n e (omega (arith, left)) idle) h.run;
        idle = h.idle;
        rests = h.rests;
        same_connection = h.same_connection;
        leaves = reheaded h.leaves;
      },
    )

-- From any place, also between the pop and the header.
pub sends_on :
    (a b : Host) (s : Sender)
    → SenderWithin s
    → a.listener ≡ free
    → a.sender ≡ s
    → (a1 : Host) × Runs b a a1
      × (a1.listener ≡ free)
      × (a1.sender ≡ resting)
      × (a1.side.connection ≡ a.side.connection)
      × Departs s a.side.wire a1.side.wire
unfolding host_loads
sends_on a b resting within idle e = (a, stays, idle, e, refl, refl)
sends_on a b (popped p) within idle e =
    let (a1, h) = sends_checked ack_count 0 (host_loads p a) b _ refl idle refl in
    (a1, moves (loads p e) h.run, h.idle, h.rests, h.same_connection, reheaded h.leaves)
sends_on a b (checking p n) within idle e =
    let (a1, h) = sends_checked (ack_count - n) n a b p (omega (arith, within)) idle e in
    (a1, h.run, h.idle, h.rests, h.same_connection, h.leaves)
