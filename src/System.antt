-- ===== src/System.antt =====
-- Two connections that exchange packets over a network which may lose them, repeat them and bring
-- them in any order: GioNet/src/Connection.cpp on either side, with the payloads that its user
-- has scheduled and the packets that its user has taken.
pub mod Genuine
pub mod Flows
pub mod Popped
pub mod Sender
pub mod Receiver
pub mod Stream
pub mod Stall
pub mod Gone
pub mod Passed
pub mod Lost
pub mod Resend
pub mod Recovery
mod Examples
use gio_net.Base.{
  true, ℕ, zero, suc, ◌≡◌, ◌<◌, ◌≤◌, List, [], ◌∷◌, ◌++◌, Option, none, some, Result, ok,
  if◌then◌else◌, length, ◌⊎◌,
}
use gio_net.Buffer.{Buffer}
use gio_net.Address.{NetAddress}
use gio_net.Packet.{Packet, is_reliable}
use gio_net.Connection.{
  Connection, new_connection, schedule, received, pop_ready_outgoing_packet,
  pop_ready_incoming_packet,
}
use gio_net.Connection.Acks.{to_list}

-- One side: its connection, the payloads of the reliable packets that it has scheduled, in order,
-- the packets of its own that are under way, and all that its user has taken, in order.
pub record Side : Type 0 where
  pub connection : Connection
  pub sent : List Buffer
  pub wire : List Packet
  pub taken : List Packet

pub record System : Type 0 where
  pub left : Side
  pub right : Side

abbrev pub In : {A : Type 0} → A → List A → Type 0
In x [] = ⊥
In x (y ∷ ys) = (y ≡ x) ⊎ In x ys

abbrev pub remove {ℓ} : {A : Type ℓ} → ℕ → List A → List A
remove n [] = []
remove zero (x ∷ xs) = xs
remove (suc n) (x ∷ xs) = x ∷ remove n xs

-- Each side schedules at most this many reliable packets: one less than there are ids, so that
-- none is used twice.
abbrev pub limit : ℕ
limit = 65534

unfoldable pub side_schedules : Packet → Side → Side
side_schedules p a = record a {
  connection = schedule a.connection p;
  sent = if is_reliable p then a.sent ++ (p.payload ∷ []) else a.sent;
}

unfoldable pub side_transmits : Side → Side
side_transmits a =
    let (popped, c) = pop_ready_outgoing_packet a.connection in
    record a { connection = c; wire = a.wire ++ to_list popped }

unfoldable pub side_takes : Side → Side
side_takes a =
    let (popped, c) = pop_ready_incoming_packet a.connection in
    record a { connection = c; taken = a.taken ++ to_list popped }

-- What the side `a` may do, and the network with its packets, while the other side is `b`. A
-- packet that arrives stays under way, so it may arrive again.
pub data Acts (b a : Side) : Side → Type 0 where
  schedules :
      (p : Packet) → (is_reliable p ≡ true → length a.sent < limit) → Acts b a (side_schedules p a)
  transmits : Acts b a (side_transmits a)
  receives :
      (p : Packet) (d : Connection)
      → In p b.wire
      → received a.connection p ≡ ok d
      → Acts b a (record a { connection = d })
  takes : Acts b a (side_takes a)
  loses : (n : ℕ) → Acts b a (record a { wire = remove n a.wire })

pub data Step (s : System) : System → Type 0 where
  left_acts : {a : Side} → Acts s.right s.left a → Step s (record s { left = a })
  right_acts : {a : Side} → Acts s.left s.right a → Step s (record s { right = a })

abbrev pub new_side : NetAddress → Side
new_side peer = record { connection = new_connection peer; sent = []; wire = []; taken = [] }

-- Both sides at their start, each with the address of the other.
abbrev pub init : NetAddress → NetAddress → System
init l r = record { left = new_side r; right = new_side l }

pub data Reach (s : System) : System → Type 0 where
  here : Reach s s
  next : {t u : System} → Reach s t → Step t u → Reach s u
