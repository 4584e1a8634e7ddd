-- ===== src/Connection/Ids.antt =====
-- The packet ids: a cycle of 65535 numbers that leaves out the invalid id, 0.

use gio_net.Base.{ℕ, zero, suc, ◌+◌, ◌-◌, ◌%◌, ◌<◌, ◌≡◌, ◌≢◌, arith, if◌then◌else◌, leb}
use gio_net.Connection.{Connection, get_index_for_next_packet, next_expected}

-- An IdType that is no invalid id.
abbrev pub IsId : ℕ → Type 0
IsId id = (0 < id) × (id < 65536)

pub next_expected-IsId : (id : ℕ) → IsId (next_expected id)
unfolding next_expected
next_expected-IsId id = ground arith

pub next_expected_lem : (id : ℕ) → id < 65536 → next_expected id ≡ id % 65535 + 1
unfolding next_expected
next_expected_lem id h = ground arith

-- From a 16-bit sequence number, the id that the sender gives to its next packet is the one that
-- the receiver, at the same sequence number, expects next; it is not the invalid id, and the
-- sender's sequence number moves to it.
pub get_index-next_expected :
    (c : Connection)
    → c.outgoing.sequence_number < 65536
    → let (index, c1) = get_index_for_next_packet c in
      (index ≡ next_expected c.outgoing.sequence_number)
      × (c1.outgoing.sequence_number ≡ index)
      × IsId index
unfolding get_index_for_next_packet next_expected
get_index-next_expected c h = ground arith

pub get_index_lem :
    (c : Connection)
    → c.outgoing.sequence_number < 65536
    → let next = next_expected c.outgoing.sequence_number in
      get_index_for_next_packet c
      ≡ (next, record c { outgoing = record c.outgoing { sequence_number = next } })
unfolding get_index_for_next_packet next_expected
get_index_lem c h = ground arith

-- The id after n steps.
unfoldable pub nth_id : ℕ → ℕ → ℕ
nth_id id zero = id
nth_id id (suc n) = nth_id (next_expected id) n

pub nth_id_lem : (id n : ℕ) → id < 65536 → nth_id id (suc n) ≡ (id + n) % 65535 + 1
unfolding nth_id
nth_id_lem id zero h = rw (next_expected_lem id h) (omega arith)
nth_id_lem id (suc n) h =
    let e : next_expected id ≡ id % 65535 + 1 = next_expected_lem id h in
    omega (arith, e, nth_id_lem (next_expected id) n (next_expected-IsId id).1)

-- Of 65535 ids in a row no two are equal, from whichever 16-bit number the sequence starts.
pub nth_id_distinct :
    (id m n : ℕ) → id < 65536 → m < n → n < m + 65535 → nth_id id (suc m) ≢ nth_id id (suc n)
nth_id_distinct id m n h lt near = omega (arith, nth_id_lem id m h, nth_id_lem id n h)

-- How many steps lead from one id to another.
unfoldable pub gap : ℕ → ℕ → ℕ
gap from to = if leb from to then to - from else to + 65535 - from

pub gap-lt : (from to : ℕ) → from < 65536 → to < 65536 → gap from to < 65536
unfolding gap
gap-lt from to h k = ground arith

pub gap-next_expected :
    (from to : ℕ)
    → from < 65536
    → IsId to
    → from ≢ to
    → gap (next_expected from) to + 1 ≡ gap from to
unfolding gap
gap-next_expected from to h k ne = ground (arith, next_expected_lem from h)
