-- ===== src/Packet/Header.antt =====
-- The header byte: what the constructor packs into it, and what the accessors read.
use gio_net.Base.{
  if◌then◌else◌, ℕ, zero, suc, ◌≡◌, refl, ◌≤◌, ◌<◌, Bool, true, false, ◌&&◌, arith, ◌==◌, ◌*◌, ◌/◌,
  ◌+◌,
}
use gio_net.Buffer.{Buffer}
use gio_net.Packet.{
  Packet, Types, Flags, connect_type, data_type, ping_type, no_flags, reliable_flag, type_bits,
  flag_bits, max_viable_type, max_viable_flags, set_flags, make_packet, get_type, get_flags,
  is_reliable, default_packet,
}

-- The assertions on the bits hold of every declared enumerator.
pub type_bits-viable : (t : Types) → type_bits t ≤ max_viable_type
type_bits-viable connect_type = omega arith
type_bits-viable _ = omega arith

pub flag_bits-viable : (f : Flags) → flag_bits f ≤ max_viable_flags
flag_bits-viable no_flags = omega arith
flag_bits-viable _ = omega arith

-- Whether a test holds of the `n` numbers below `n`, found out by evaluation.
holds_below : (ℕ → Bool) → ℕ → Bool
holds_below test zero = true
holds_below test (suc n) = if test n then holds_below test n else false

of-holds_below : (test : ℕ → Bool) (n h : ℕ) → holds_below test n ≡ true → h < n → test h ≡ true
unfolding holds_below
of-holds_below test zero h table h_lt = absurd (omega arith)
of-holds_below test (suc n) h table h_lt = ground (arith, of-holds_below test n h)

bytes : ℕ → Packet
bytes h = record default_packet { header = h }

-- A packet built from a type, a flag and a payload gives each of them back, with no id and no
-- acks.
pub make_packet_fields :
    (t : Types) (f : Flags) (b : Buffer)
    → (get_type (make_packet t f b) ≡ type_bits t)
      × (get_flags (make_packet t f b) ≡ flag_bits f)
      × (is_reliable (make_packet t f b) ≡ (flag_bits f == 1))
      × ((make_packet t f b).payload ≡ b)
      × ((make_packet t f b).id ≡ 0)
      × ((make_packet t f b).ack_id ≡ 0)
      × ((make_packet t f b).ack_bitset ≡ 0)
unfolding make_packet get_type get_flags is_reliable
make_packet_fields connect_type no_flags b = (refl, refl, refl, refl, refl, refl, refl)
make_packet_fields connect_type reliable_flag b = (refl, refl, refl, refl, refl, refl, refl)
make_packet_fields data_type no_flags b = (refl, refl, refl, refl, refl, refl, refl)
make_packet_fields data_type reliable_flag b = (refl, refl, refl, refl, refl, refl, refl)
make_packet_fields ping_type no_flags b = (refl, refl, refl, refl, refl, refl, refl)
make_packet_fields ping_type reliable_flag b = (refl, refl, refl, refl, refl, refl, refl)

-- What each header byte holds after a flag is switched on or off.
set_on_table :
    holds_below
      (λ h.
        let p = bytes h in
        let q = set_flags p reliable_flag true in
        get_type q == get_type p && get_flags q == get_flags p / 2 * 2 + 1 && is_reliable q)
      256
    ≡ true
unfolding holds_below set_flags get_type get_flags is_reliable bytes
set_on_table = refl

-- On a header of one byte, switching the reliable flag on keeps the type and the other flag bits,
-- and the flag is then set.
pub set_flags_on :
    (p : Packet)
    → p.header < 256
    → let q = set_flags p reliable_flag true in
      (get_type q ≡ get_type p) × (get_flags q ≡ get_flags p / 2 * 2 + 1) × (is_reliable q ≡ true)
unfolding set_flags get_type get_flags is_reliable bytes
set_flags_on p h = ground (arith, of-holds_below _ 256 p.header set_on_table h)

set_off_table :
    holds_below
      (λ h.
        let p = bytes h in
        let q = set_flags p reliable_flag false in
        get_type q == get_type p / 2 * 2 && get_flags q == get_flags p)
      256
    ≡ true
unfolding holds_below set_flags get_type get_flags bytes
set_off_table = refl

-- On a header of one byte, switching the reliable flag off leaves every flag bit as it was, the
-- reliable one included, and clears the lowest bit of the type instead.
pub set_flags_off :
    (p : Packet)
    → p.header < 256
    → let q = set_flags p reliable_flag false in
      (get_flags q ≡ get_flags p) × (get_type q ≡ get_type p / 2 * 2)
unfolding set_flags get_type get_flags bytes
set_flags_off p h = ground (arith, of-holds_below _ 256 p.header set_off_table h)
