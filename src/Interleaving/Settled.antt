-- ===== src/Interleaving/Settled.antt =====
-- What holds of a side while its threads are in the middle of a call.
use gio_net.Base.{ℕ, zero, suc, ◌≡◌, ◌<◌, true, List, ◌++◌, ◌⊎◌, inl, inr}
use gio_net.Buffer.{Buffer}
use gio_net.Packet.{Packet, is_reliable}
use gio_net.Connection.{Connection, has_received_packet}
use gio_net.Connection.Ids.{IsId}
use gio_net.System.{Side}
use gio_net.System.Genuine.{IsGenuine, MayBe, MayBe-append, get_elem?-append}
use gio_net.System.Flows.{Flows, IsSound, IsSound-mono}
use gio_net.Interleaving.{
  Host, Listener, free, locked, acking, noted, Sender, resting, popped, checking,
}

-- While the packet of the current ack id may not be filed yet, the ack id is left out of account.
abbrev pub settled_ack : Listener → ℕ → ℕ
settled_ack free id = id
settled_ack (locked p) id = id
settled_ack (acking p i) id = id
settled_ack (noted p) id = 0

abbrev pub settled : Host → Side
settled a = record a.side {
  connection = record a.side.connection {
    current_ack_id = settled_ack a.listener a.side.connection.current_ack_id;
  };
}

-- The packet is the one that a thread is about to file.
abbrev pub IsFiling : Listener → ℕ → Type 0
IsFiling free id = ⊥
IsFiling (locked p) id = ⊥
IsFiling (acking p i) id = ⊥
IsFiling (noted p) id = p.id ≡ id

-- A reliable packet of the other side, which has sent these payloads, whose id the connection has
-- taken into its ack id: this is the id of the packet, or that of one that has arrived.
pub record IsNoted (sent : List Buffer) (p : Packet) (c : Connection) : Type 0 where
  pub reliable : is_reliable p ≡ true
  pub id : IsId p.id
  pub genuine : IsGenuine sent p
  pub ack_id : IsId c.current_ack_id
  pub held : (p.id ≡ c.current_ack_id) ⊎ (has_received_packet c c.current_ack_id ≡ true)

-- A packet of a side which has sent these payloads, with a header that says no more than what the
-- connection has received.
abbrev pub IsHonest : List Buffer → Connection → Packet → Type 0
IsHonest sent b p = MayBe sent p × IsSound b p

-- What the thread that listens at `c` has at hand came from a side with the connection `b` that
-- has sent these payloads.
abbrev pub Listening : List Buffer → Connection → Listener → Connection → Type 0
Listening sent b free c = Unit
Listening sent b (locked p) c = IsHonest sent b p
Listening sent b (acking p i) c = IsHonest sent b p
Listening sent b (noted p) c = IsNoted sent p c

-- An ack id that has been loaded is that of a packet that has arrived or that is about to be
-- filed; once a bit has been checked, no more packet is about to be filed, and the header is
-- sound.
abbrev pub Sending : Listener → List Buffer → Sender → Connection → Type 0
Sending l sent resting c = Unit
Sending l sent (popped p) c = MayBe sent p
Sending l sent (checking p zero) c =
    MayBe sent p
    × (p.ack_bitset ≡ 0)
    × ((p.ack_id ≡ 0) ⊎ (IsFiling l p.ack_id ⊎ (has_received_packet c p.ack_id ≡ true)))
Sending l sent (checking p (suc i)) c = MayBe sent p × (p.ack_bitset < 16) × IsSound c p

-- The threads of `a`, while the other side is `b`.
pub record Threads (a b : Host) : Type 0 where
  pub listening : Listening b.side.sent b.side.connection a.listener a.side.connection
  pub sending : Sending a.listener a.side.sent a.sender a.side.connection

-- Both directions, and the threads of both sides.
pub record IsSettled (a b : Host) : Type 0 where
  pub outward : Flows (settled a) (settled b)
  pub inward : Flows (settled b) (settled a)
  pub own : Threads a b
  pub other : Threads b a

pub IsSettled-sym : {a b : Host} → IsSettled a b → IsSettled b a
IsSettled-sym i = record { outward = i.inward; inward = i.outward; own = i.other; other = i.own }

-- A side has not taken back a payload that it has sent, or forgotten a packet.
pub record Grows (a a1 : Side) : Type 0 where
  pub more : List Buffer
  pub sent : a1.sent ≡ a.sent ++ more
  pub remembers :
      (id : ℕ)
      → has_received_packet a.connection id ≡ true
      → has_received_packet a1.connection id ≡ true

IsHonest-Grows :
    {a a1 : Side} (p : Packet)
    → Grows a a1
    → IsHonest a.sent a.connection p
    → IsHonest a1.sent a1.connection p
IsHonest-Grows {a} {a1} p g h = (
  rw g.sent (MayBe-append a.sent g.more p h.0),
  IsSound-mono a.connection a1.connection g.remembers p h.1,
)

-- What one side does leaves the threads of the other where they are.
pub Listening-Grows :
    (l : Listener) (c : Connection) {a a1 : Side}
    → Grows a a1
    → Listening a.sent a.connection l c
    → Listening a1.sent a1.connection l c
Listening-Grows free c g h = tt
Listening-Grows (locked p) c g h = IsHonest-Grows p g h
Listening-Grows (acking p i) c g h = IsHonest-Grows p g h
Listening-Grows (noted p) c {a} g h = record {
  reliable = h.reliable;
  id = h.id;
  genuine = rw g.sent (get_elem?-append a.sent g.more _ _ h.genuine);
  ack_id = h.ack_id;
  held = h.held;
}

-- Nor does what a thread of one side does to the rest of its side.
pub Listening-same :
    (l : Listener) (sent : List Buffer) (b c d : Connection)
    → d.incoming.reliable_packets ≡ c.incoming.reliable_packets
    → d.current_ack_id ≡ c.current_ack_id
    → Listening sent b l c
    → Listening sent b l d
unfolding has_received_packet
Listening-same free sent b c d same ack h = tt
Listening-same (locked p) sent b c d same ack h = h
Listening-same (acking p i) sent b c d same ack h = h
Listening-same (noted p) sent b c d same ack h = record {
  reliable = h.reliable;
  id = h.id;
  genuine = h.genuine;
  ack_id = rw ack h.ack_id;
  held = rw (ack, same) h.held;
}

-- The thread that sends keeps what it has as long as the side grows, and a packet that was about
-- to be filed still is, or has arrived.
pub Sending-Grows :
    (l l1 : Listener) (s : Sender) (a a1 : Side)
    → Grows a a1
    → ((id : ℕ) → IsFiling l id → IsFiling l1 id ⊎ (has_received_packet a1.connection id ≡ true))
    → Sending l a.sent s a.connection
    → Sending l1 a1.sent s a1.connection
Sending-Grows l l1 resting a a1 g f h = tt
Sending-Grows l l1 (popped p) a a1 g f h = rw g.sent (MayBe-append a.sent g.more p h)
Sending-Grows l l1 (checking p zero) a a1 g f h = (
  rw g.sent (MayBe-append a.sent g.more p h.0),
  h.1,
  elim h.2 [
    | inl z ↦ inl z
    | inr (inl w) ↦ inr (f p.ack_id w)
    | inr (inr r) ↦ inr (inr (g.remembers p.ack_id r))
  ],
)
Sending-Grows l l1 (checking p (suc i)) a a1 g f h = (
  rw g.sent (MayBe-append a.sent g.more p h.0),
  h.1,
  IsSound-mono a.connection a1.connection g.remembers p h.2,
)
