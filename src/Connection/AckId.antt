-- ===== src/Connection/AckId.antt =====
-- `UpdateAckId` as serial-number arithmetic.
use gio_net.Base.{ℕ, ◌+◌, ◌-◌, ◌≤◌, ◌<◌, ◌≡◌, ◌≢◌, arith, u16, ◌⊎◌}
use gio_net.Packet.{invalid_id}
use gio_net.Connection.{latest_id}
use gio_net.Connection.Ids.{IsId}

-- How far an id lies ahead of another on the cycle of 2 ^ 16 numbers.
abbrev pub ahead : ℕ → ℕ → ℕ
ahead from to = u16 (to + 65536 - from)

-- Of two valid ids, the current ack id and a new one: an id less than half the cycle ahead
-- replaces the current one, also across the overflow, one further ahead than that is an old one
-- and leaves it, and at the two distances in the middle the new id wins if it is the smaller
-- number.
pub latest_id_lem :
    (current new : ℕ)
    → IsId current
    → IsId new
    → (ahead current new < 32767 → latest_id current new ≡ new)
      × (32768 < ahead current new → latest_id current new ≡ current)
      × (32767 ≤ ahead current new
          → ahead current new ≤ 32768
          → (new < current → latest_id current new ≡ new)
            × (current < new → latest_id current new ≡ current))
unfolding latest_id
latest_id_lem current new h k =
    (λ a. ground arith, λ a. ground arith, λ a b. ((λ c. ground arith), (λ c. ground arith)))

-- The first id is taken as it is.
pub latest_id_first : (new : ℕ) → latest_id invalid_id new ≡ new
unfolding latest_id
latest_id_first new = ground arith

-- The ack id that results is always one of the two, and a valid id.
pub latest_id-IsId : (current new : ℕ) → current < 65536 → IsId new → IsId (latest_id current new)
unfolding latest_id
latest_id-IsId current new h k = ground arith

pub latest_id_cases :
    (current new : ℕ)
    → (latest_id current new ≡ new) ⊎ ((latest_id current new ≡ current) × (current ≢ 0))
unfolding latest_id
latest_id_cases current new = ground arith
