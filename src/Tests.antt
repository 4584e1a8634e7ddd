-- ===== src/Tests.antt =====
-- The unit tests in GioNetTests/src: each test as a function that returns, or ends in the fault
-- of an assertion, and each loop of a test as one on the number of rounds.
pub mod Stress
pub mod Connections
mod Reliability
mod Serialization
use gio_net.Base.{Option, none, some, Result, ok, fault, assertion}

-- ASSERT_TRUE of an optional, whose value is used afterwards.
abbrev pub expect {ℓ} : {A : Type ℓ} → Option A → Result A
expect none = fault assertion
expect (some a) = ok a
