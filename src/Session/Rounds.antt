-- ===== src/Session/Rounds.antt =====
-- The rounds of the client's threads, as what one side of two connections does.
use gio_net.Base.{◌≡◌, true, List, [], ◌∷◌, ◌++◌, append_assoc, append-nil, Bool-cases, inl, inr}
use gio_net.Packet.{Packet, is_reliable, data_type, reliable_flag, no_flags}
use gio_net.Packet.Header.{make_packet_fields}
use gio_net.Connection.{
  Connection, pop_ready_outgoing_packet, pop_ready_incoming_packet, pop_next_ready_packet,
  add_ack_header, ack_bits, has_received_packet,
}
use gio_net.Message.{Message}
use gio_net.Server.{message_packet}
use gio_net.System.{Side, In, Acts, transmits, takes, side_transmits, side_takes}
use gio_net.System.Flows.{Flows}
use gio_net.System.Sender.{Acts-sender}
use gio_net.System.Receiver.{Acts-receiver}
use gio_net.Session.{headed}
use gio_net.Session.Plain.{Plain, told, Acts-Plain}
use gio_net.Session.Came.{Acts-came}
use gio_net.Buffer.{Buffer}
use gio_net.Connection.Ids.{IsId}
use gio_net.System.Genuine.{MayBe, All-In}

-- What a side does, one thing after another.
pub data Plays (b : Side) : Side → Side → Type 0 where
  done : {a : Side} → Plays b a a
  acts : {a a1 a2 : Side} → Acts b a a1 → Plays b a1 a2 → Plays b a a2

-- Both directions.
pub record Flow (a b : Side) : Type 0 where
  pub outward : Flows a b
  pub inward : Flows b a

pub Acts-Flow : {b a a1 : Side} → Acts b a a1 → Flow a b → Flow a1 b
Acts-Flow act f = record {
  outward = Acts-sender act f.outward f.inward;
  inward = Acts-receiver act f.inward;
}

pub Flow-sym : {a b : Side} → Flow a b → Flow b a
Flow-sym f = record { outward = f.inward; inward = f.outward }

-- Both directions, and the packets to `a` that are not reliable.
pub record Traffic (u : List Buffer) (a b : Side) : Type 0 where
  pub flow : Flow a b
  pub plain : Plain u b a

-- Reliable packets under way bear ids.
abbrev BearIds : Side → Type 0
BearIds b = (p : Packet) → In p b.wire → is_reliable p ≡ true → IsId p.id

Flows-BearIds : (b a : Side) → Flows b a → BearIds b
Flows-BearIds b a f p there reliable = (All-In (MayBe b.sent) p b.wire f.under_way there reliable).0

pub Acts-Traffic : {u : List Buffer} {b a a1 : Side} → Acts b a a1 → Traffic u a b → Traffic u a1 b
Acts-Traffic {u} {b} {a} act t = record {
  flow = Acts-Flow act t.flow;
  plain = Acts-came u act t.flow.inward.tracks.valid (Flows-BearIds b a t.flow.inward) t.plain;
}

pub Plays-Traffic :
    {u : List Buffer} {b a a1 : Side} → Plays b a a1 → Traffic u a b → Traffic u a1 b
Plays-Traffic done t = t
Plays-Traffic (acts act more) t = Plays-Traffic more (Acts-Traffic act t)

-- What the other side does.
pub Acts-peer :
    {u : List Buffer} {a b b1 : Side} (act : Acts a b b1)
    → Traffic u a b
    → Traffic (told act u) a b1
Acts-peer {u} {a} {b} act t = record {
  flow = Flow-sym (Acts-Flow act (Flow-sym t.flow));
  plain = Acts-Plain u act t.flow.outward.tracks.valid (Flows-BearIds a b t.flow.outward) t.plain;
}

abbrev pub with_outgoing : Connection → List Packet → Connection
with_outgoing c ps = record c { outgoing = record c.outgoing { ready_packets = ps } }

abbrev pub with_incoming : Connection → List Packet → Connection
with_incoming c ps = record c { incoming = record c.incoming { ready_packets = ps } }

-- The whole queue goes out.
pub transmits_all :
    (b a : Side) (c : Connection) (ps : List Packet) (wire : List Packet)
    → Plays b
        (record a { connection = with_outgoing c ps; wire = wire })
        (record a { connection = with_outgoing c []; wire = wire ++ headed c ps })
unfolding side_transmits pop_ready_outgoing_packet pop_next_ready_packet add_ack_header ack_bits
    has_received_packet
transmits_all b a c [] wire = rw (append-nil wire) done
transmits_all b a c (p ∷ ps) wire =
    rw (← append_assoc wire (add_ack_header c p ∷ []) (headed c ps))
      (acts transmits (transmits_all b a c ps (wire ++ (add_ack_header c p ∷ []))))

-- The whole queue is taken.
pub takes_all :
    (b a : Side) (c : Connection) (ps : List Packet) (taken : List Packet)
    → Plays b
        (record a { connection = with_incoming c ps; taken = taken })
        (record a { connection = with_incoming c []; taken = taken ++ ps })
unfolding side_takes pop_ready_incoming_packet pop_next_ready_packet
takes_all b a c [] taken = rw (append-nil taken) done
takes_all b a c (p ∷ ps) taken =
    rw (← append_assoc taken (p ∷ []) ps) (acts takes (takes_all b a c ps (taken ++ (p ∷ []))))

-- The packet of a message is as reliable as the message, and has its payload.
pub message_packet_lem :
    (msg : Message)
    → (is_reliable (message_packet msg) ≡ msg.reliable)
      × ((message_packet msg).payload ≡ msg.«data»)
message_packet_lem msg = elim (Bool-cases msg.reliable) [
  | inl e ↦ let f = make_packet_fields data_type reliable_flag msg.«data» in rw e (f.2, f.3)
  | inr e ↦ let f = make_packet_fields data_type no_flags msg.«data» in rw e (f.2, f.3)
]
