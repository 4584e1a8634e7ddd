-- ===== src/System/Stall.antt =====
-- A packet that is lost for good: one that the acks pass by more than four ids.
use gio_net.Base.{
  ℕ, ◌+◌, ◌≡◌, ◌≢◌, ◌<◌, ◌≤◌, sym, ◌∙◌, Bool, true, false, arith, none, some, List, [], ◌∷◌, ◌++◌,
  All, All-append, length, ◌⊎◌, inl, inr, Option-cases, Bool-cases, ◌==◌,
}
use gio_net.Base.Map.{Map, find}
use gio_net.Packet.{Packet, is_reliable}
use gio_net.Connection.{has_received_packet, next_expected, latest_id}
use gio_net.Connection.Ids.{next_expected_lem}
use gio_net.Connection.Acks.{behind, resent, resends, test_bit}
use gio_net.Connection.Enqueue.{Run}
use gio_net.System.{Side}

-- Half the cycle of ids: with no more packets than that an old id is never taken for a later one.
abbrev pub half_limit : ℕ
half_limit = 32767

-- Not a reliable packet with the id k.
abbrev pub IsOther : ℕ → Packet → Type 0
IsOther k p = is_reliable p ≡ true → p.id ≢ k

-- An ack id whose four bits say nothing of the id k.
abbrev pub IsFar : ℕ → Packet → Type 0
IsFar k q = (q.ack_id < 65536) × ((q.ack_id ≤ k) ⊎ (k + 4 < q.ack_id))

-- At the sender: no copy of the packet k is about to go out or under way.
pub record IsGone (k : ℕ) (a : Side) : Type 0 where
  pub scheduled : k ≤ length a.sent
  pub queue : All (IsOther k) a.connection.outgoing.ready_packets
  pub under_way : All (IsOther k) a.wire

-- At the receiver: the packet k is missing, the acks have passed it by more than four ids, and no
-- header under way says anything of it.
pub record IsPassed (k : ℕ) (b : Side) : Type 0 where
  pub missing : has_received_packet b.connection k ≡ false
  pub behind_it : b.connection.incoming.sequence_number < k
  pub passed : k + 4 < b.connection.current_ack_id
  pub recent : b.connection.current_ack_id ≤ half_limit
  pub headers : All (IsFar k) b.wire

-- A header that is far from k does not send k once more.
resent-IsOther :
    (k j : ℕ) (acked : Bool) (m : Map Packet)
    → ((p : Packet) → find j m ≡ some p → p.id ≡ j)
    → j ≢ k
    → All (IsOther k) (resent acked j m)
resent-IsOther k j true m filed ne = tt
resent-IsOther k j false m filed ne = elim (Option-cases (find j m)) [
  | inl e ↦ rw e tt
  | inr (p, e) ↦ rw e ((λ reliable same. ne (sym (filed p e) ∙ same)), tt)
]

pub resends-IsOther :
    (k : ℕ) (q : Packet) (m : Map Packet)
    → ((j : ℕ) (p : Packet) → find j m ≡ some p → p.id ≡ j)
    → 0 < k
    → k ≤ half_limit
    → IsFar k q
    → All (IsOther k) (resends q m)
resends-IsOther k q m filed pos small far = one 1 0 _ (omega arith) (omega arith) (
    one 2 1 _ (omega arith) (omega arith)
      (one 3 2 _ (omega arith) (omega arith) (one 4 3 [] (omega arith) (omega arith) tt)))
  where
    ne : (n : ℕ) → 0 < n → n ≤ 4 → behind n q.ack_id ≢ k
    ne n h l e =
        let word = far.0 in elim (far.1) [ inl below ↦ omega arith | inr above ↦ omega arith ]

    one :
        (n i : ℕ) (rest : List Packet)
        → 0 < n
        → n ≤ 4
        → All (IsOther k) rest
        → All (IsOther k) (resent (test_bit i q.ack_bitset) (behind n q.ack_id) m ++ rest)
    one n i rest h l a =
        All-append (IsOther k) (resent (test_bit i q.ack_bitset) (behind n q.ack_id) m) rest
          (resent-IsOther k (behind n q.ack_id) (test_bit i q.ack_bitset) m
            (filed (behind n q.ack_id)) (ne n h l))
          a

-- Below half the cycle the ack id only grows.
pub latest_id-max :
    (current new : ℕ)
    → 0 < current
    → current ≤ half_limit
    → new ≤ half_limit
    → (current ≤ latest_id current new) × (latest_id current new ≤ half_limit)
unfolding latest_id
latest_id-max current new h k l = ground arith

-- A run stops in front of the missing packet.
pub Run-stops :
    (m : Map Packet) (from to k : ℕ) (ps : List Packet)
    → find k m ≡ none
    → from < k
    → k ≤ half_limit
    → Run m from ps to
    → to < k
Run-stops m from to k [] missing h small r = omega (arith, r)
Run-stops m from to k (p ∷ ps) missing h small r =
    let now : next_expected from ≡ from + 1 = omega (arith, next_expected_lem from) in
    elim (Bool-cases (from + 1 == k)) [
      | inl same ↦ let e : next_expected from ≡ k = ground arith in ground (arith, rw e at r.0)
      | inr other ↦ Run-stops m (next_expected from) to k ps missing (ground arith) small r.1
    ]
