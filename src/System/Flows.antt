-- ===== src/System/Flows.antt =====
-- The invariant of the packets that flow from one side to the other.
use gio_net.Base.{ℕ, ◌-◌, ◌≡◌, ◌<◌, ◌≤◌, refl, true, arith, List, ◌++◌, All, length, ◌⊎◌, inl, inr}
use gio_net.Base.Map.{contains}
use gio_net.Address.{NetAddress}
use gio_net.Buffer.{Buffer}
use gio_net.Packet.{Packet}
use gio_net.Connection.{Connection, has_received_packet, add_ack_header}
use gio_net.Connection.Acks.{acknowledges}
use gio_net.Connection.Acks.Exchange.{reports}
use gio_net.Connection.Acks.Bitset.{add_ack_header_lem}
use gio_net.Connection.Invariant.{IsValid, new_connection-IsValid}
use gio_net.Connection.Delivery.Tracks.{Tracks}
use gio_net.System.{Side, new_side, limit}
use gio_net.System.Genuine.{IsGenuine, MayBe, Outgoing, All-weaken, get_elem?-append}

-- All that a header acknowledges has arrived. (Id 0 is that of no packet.)
abbrev pub IsSound : Connection → Packet → Type 0
IsSound b q = (id : ℕ) → acknowledges q id ≡ true → (id ≡ 0) ⊎ (has_received_packet b id ≡ true)

-- The packet waits for its ack, or it has arrived.
abbrev pub IsKept : Connection → Connection → ℕ → Type 0
IsKept a b id = (contains id a.outgoing.reliable_packets ≡ true) ⊎ (has_received_packet b id ≡ true)

-- From `a` to `b`: ids are counted from 1, every copy of a packet that is about carries what was
-- sent under its id, the receiver's history is a chain of such packets, no packet is lost from
-- both sides, and no header of the receiver says more than the truth.
pub record Flows (a b : Side) : Type 0 where
  pub counted : a.connection.outgoing.sequence_number ≡ length a.sent
  pub few : length a.sent ≤ limit
  pub outgoing : Outgoing (MayBe a.sent) a.connection
  pub under_way : All (MayBe a.sent) a.wire
  pub tracks : Tracks (IsGenuine a.sent) 0 b.connection b.taken
  pub kept : (id : ℕ) → 0 < id → id ≤ length a.sent → IsKept a.connection b.connection id
  pub headers : All (IsSound b.connection) b.wire

pub IsSound-mono :
    (b d : Connection)
    → ((id : ℕ) → has_received_packet b id ≡ true → has_received_packet d id ≡ true)
    → (q : Packet) → IsSound b q
    → IsSound d q
IsSound-mono b d more q s id h = elim (s id h) [ inl e ↦ inl e | inr r ↦ inr (more id r) ]

-- What a connection writes into a header is sound.
pub add_ack_header-IsSound :
    (c : Connection) (p : Packet) → IsValid c → IsSound c (add_ack_header c p)
add_ack_header-IsSound c p v id h =
    let a = add_ack_header_lem c p in
    let reported : reports c id ≡ true = rw (a.0, a.1, a.2, a.3, a.4) at h in
    ground (arith, v.ack_arrived)

-- A history that tracks some payloads tracks more of them.
pub Tracks-append :
    (sent more : List Buffer) (c : Connection) (log : List Packet)
    → Tracks (IsGenuine sent) 0 c log
    → Tracks (IsGenuine (sent ++ more)) 0 c log
Tracks-append sent more c log t = record {
  valid = t.valid;
  chained = t.chained;
  genuine_filed =
      All-weaken (λ (e : ℕ × Packet). IsGenuine sent e.1)
        (λ (e : ℕ × Packet). IsGenuine (sent ++ more) e.1)
        (λ e g. get_elem?-append sent more (e.1.id - 1) e.1.payload g) c.incoming.reliable_packets
        t.genuine_filed;
  genuine =
      All-weaken (IsGenuine sent) (IsGenuine (sent ++ more))
        (λ p g. get_elem?-append sent more (p.id - 1) p.payload g) _ t.genuine;
}

-- Only the incoming stream of the receiver counts.
pub Tracks-same :
    (sent : List Buffer) (c d : Connection) (log : List Packet)
    → IsValid d
    → d.incoming ≡ c.incoming
    → Tracks (IsGenuine sent) 0 c log
    → Tracks (IsGenuine sent) 0 d log
Tracks-same sent c d log v same t = record {
  valid = v;
  chained = rw same t.chained;
  genuine_filed = rw same t.genuine_filed;
  genuine = rw same t.genuine;
}

pub new_side-Flows : (l r : NetAddress) → Flows (new_side l) (new_side r)
new_side-Flows l r = record {
  counted = refl;
  few = omega arith;
  outgoing = record { waiting = tt; queue = tt };
  under_way = tt;
  tracks = record {
    valid = new_connection-IsValid r;
    chained = refl;
    genuine_filed = tt;
    genuine = tt;
  };
  kept = λ id h k. absurd (omega arith);
  headers = tt;
}
