-- ===== src/Interleaving/Ending.antt =====
-- The calls of a side that have begun come to their end, in whatever order the steps come.
use gio_net.Base.{ℕ, ◌+◌, ◌-◌, ◌≡◌, ◌≤◌, ◌<◌, suc, refl, ap, arith, ◌⊎◌, inl, inr, Bool-cases, leb}
use gio_net.Address.{NetAddress}
use gio_net.Packet.{is_reliable}
use gio_net.Connection.{ack_count}
use gio_net.Interleaving.{
  Host, Hosts, Listener, free, locked, acking, noted, Sender, resting, popped, checking, Moves,
  schedules, takes, loses, pops, loads, checks, sends, locks, acks, acks_bit, notes, files, queues,
  left_moves, right_moves, host_loads, host_checks, host_sends, host_acks, host_acks_bit, Reach,
  next, init,
}
use gio_net.Interleaving.Settled.{IsSettled}
use gio_net.Interleaving.Acking.{listener_at}
use gio_net.Interleaving.Noting.{note_packet_lem}
use gio_net.Interleaving.Filing.{file_packet_lem}
use gio_net.Interleaving.Stream.{Reach-IsSettled}
use gio_net.Interleaving.Runs.{ListenerWithin, SenderWithin, IsWithin, Reach-IsWithin}

-- A step begins a call of one of the two threads, is one within such a call, or is one of the
-- user or the network.
pub data Kind : Type 0 where
  begins : Kind
  within_call : Kind
  aside : Kind

abbrev pub kind_of : {b a a1 : Host} → Moves b a a1 → Kind
kind_of (schedules p few) = aside
kind_of (takes e) = aside
kind_of (loses n) = aside
kind_of (pops e) = begins
kind_of (loads p e) = within_call
kind_of (checks p i e lt idle) = within_call
kind_of (sends p e) = within_call
kind_of (locks p e there) = begins
kind_of (acks p e) = within_call
kind_of (acks_bit p i e lt) = within_call
kind_of (notes p d e reliable s) = within_call
kind_of (files p d e s) = within_call
kind_of (queues p e plain) = within_call

-- What goes on while the left side begins no call, with the number of its steps within calls.
pub data Goes (s : Hosts) : Hosts → ℕ → Type 0 where
  still : Goes s s 0
  steps :
      {t : Hosts} {a : Host} {n : ℕ}
      → Goes s t n
      → (m : Moves t.right t.left a) → kind_of m ≡ within_call
      → Goes s (record t { left = a }) (suc n)
  besides :
      {t : Hosts} {a : Host} {n : ℕ}
      → Goes s t n
      → (m : Moves t.right t.left a) → kind_of m ≡ aside
      → Goes s (record t { left = a }) n
  elsewhere :
      {t : Hosts} {b : Host} {n : ℕ}
      → Goes s t n
      → Moves t.left t.right b
      → Goes s (record t { right = b }) n

Goes-Reach :
    {l r : NetAddress} {s t : Hosts} {n : ℕ} → Reach (init l r) s → Goes s t n → Reach (init l r) t
Goes-Reach reach still = reach
Goes-Reach reach (steps g m k) = next (Goes-Reach reach g) (left_moves m)
Goes-Reach reach (besides g m k) = next (Goes-Reach reach g) (left_moves m)
Goes-Reach reach (elsewhere g m) = next (Goes-Reach reach g) (right_moves m)

-- The steps that are left to a thread, at most.
abbrev listener_todo : Listener → ℕ
listener_todo free = 0
listener_todo (locked p) = ack_count + 3
listener_todo (acking p n) = ack_count - n + 2
listener_todo (noted p) = 1

abbrev sender_todo : Sender → ℕ
sender_todo resting = 0
sender_todo (popped p) = ack_count + 2
sender_todo (checking p n) = ack_count - n + 1

abbrev todo : Host → ℕ
todo a = listener_todo a.listener + sender_todo a.sender

listener_todo-le : (l : Listener) → listener_todo l ≤ 7
listener_todo-le free = omega arith
listener_todo-le (locked p) = omega arith
listener_todo-le (acking p n) = omega arith
listener_todo-le (noted p) = omega arith

sender_todo-le : (s : Sender) → sender_todo s ≤ 6
sender_todo-le resting = omega arith
sender_todo-le (popped p) = omega arith
sender_todo-le (checking p n) = omega arith

within_call-todo : {b a a1 : Host} (m : Moves b a a1) → kind_of m ≡ within_call → todo a1 < todo a
unfolding host_loads host_checks host_sends host_acks host_acks_bit
within_call-todo (loads p e) k = let now = ap sender_todo e in omega (arith, now)
within_call-todo (checks p i e lt idle) k = let now = ap sender_todo e in omega (arith, now, lt)
within_call-todo (sends p e) k = let now = ap sender_todo e in omega (arith, now)
within_call-todo (acks p e) k = let now = ap listener_todo e in omega (arith, now)
within_call-todo (acks_bit p i e lt) k = let now = ap listener_todo e in omega (arith, now, lt)
within_call-todo (notes p d e reliable s) k = let now = ap listener_todo e in omega (arith, now)
within_call-todo (files p d e s) k = let now = ap listener_todo e in omega (arith, now)
within_call-todo (queues p e plain) k = let now = ap listener_todo e in omega (arith, now)
within_call-todo m k = cc

aside-todo : {b a a1 : Host} (m : Moves b a a1) → kind_of m ≡ aside → todo a1 ≡ todo a
aside-todo (schedules p few) k = refl
aside-todo (takes e) k = refl
aside-todo (loses n) k = refl
aside-todo m k = cc

Goes-todo : {s t : Hosts} {n : ℕ} → Goes s t n → n + todo t.left ≤ todo s.left
Goes-todo still = omega arith
Goes-todo (steps g m k) = omega (arith, Goes-todo g, within_call-todo m k)
Goes-todo (besides g m k) = omega (arith, Goes-todo g, aside-todo m k)
Goes-todo (elsewhere g m) = Goes-todo g

-- A step within a call that can be made now.
abbrev pub GoesOn : Host → Host → Type 0
GoesOn b a = (a1 : Host) × (m : Moves b a a1) × (kind_of m ≡ within_call)

listener_goes_on :
    (a b : Host) (l : Listener)
    → IsSettled a b
    → ListenerWithin l
    → a.listener ≡ l
    → (a.listener ≡ free) ⊎ GoesOn b a
listener_goes_on a b free i within e = inl e
listener_goes_on a b (locked p) i within e = inr (_, acks p e, refl)
listener_goes_on a b (acking p n) i within e = elim (Bool-cases (leb ack_count n)) [
  | inl last ↦
      let all : n ≡ ack_count = ground arith in
      let e1 : a.listener ≡ acking p ack_count = rw all at e in
      elim (Bool-cases (is_reliable p)) [
        | inl reliable ↦
            let j = listener_at e1 i in
            let success = note_packet_lem p a.side.connection (j.own.listening.0 reliable).0 in
            inr (_, notes p _ e1 reliable success, refl)
        | inr plain ↦ inr (_, queues p e1 plain, refl)
      ]
  | inr more ↦ inr (_, acks_bit p n e (ground arith), refl)
]
listener_goes_on a b (noted p) i within e =
    let j = listener_at e i in
    let (t, now, delivers) =
      file_packet_lem p a.side.connection j.inward.tracks.valid.in_sequence
        j.own.listening.ack_id in
    inr (_, files p _ e now, refl)

sender_goes_on :
    (a b : Host) (s : Sender)
    → SenderWithin s
    → a.listener ≡ free
    → a.sender ≡ s
    → (a.sender ≡ resting) ⊎ GoesOn b a
sender_goes_on a b resting within idle e = inl e
sender_goes_on a b (popped p) within idle e = inr (_, loads p e, refl)
sender_goes_on a b (checking p n) within idle e = elim (Bool-cases (leb ack_count n)) [
  | inl last ↦ let all : n ≡ ack_count = ground arith in inr (_, sends p (rw all at e), refl)
  | inr more ↦ inr (_, checks p n e (ground arith) idle, refl)
]

-- No thread of the side is in a call.
abbrev pub AtRest : Host → Type 0
AtRest a = (a.listener ≡ free) × (a.sender ≡ resting)

goes_on : (a b : Host) → IsSettled a b → IsWithin a → AtRest a ⊎ GoesOn b a
goes_on a b i within = elim (listener_goes_on a b a.listener i within.0 refl) [
  | inl idle ↦ elim (sender_goes_on a b a.sender within.1 idle refl) [
    | inl rests ↦ inl (idle, rests)
    | inr step ↦ inr step
  ]
  | inr step ↦ inr step
]

-- From every state that two connections reach, whatever the users, the network and the other side
-- do in between and in whatever order the steps come: as long as the left side begins no further
-- call, its threads make at most 13 steps, and until neither is in a call there is always a step
-- within a call that the side can make.
pub interleaved_ends :
    {l r : NetAddress} {s t : Hosts} {n : ℕ}
    → Reach (init l r) s
    → Goes s t n
    → (n ≤ 13) × (AtRest t.left ⊎ GoesOn t.right t.left)
interleaved_ends {s = s} {t = t} reach g =
    let reached = Goes-Reach reach g in
    (
      omega (arith, Goes-todo g, listener_todo-le s.left.listener, sender_todo-le s.left.sender),
      goes_on t.left t.right (Reach-IsSettled reached) (Reach-IsWithin reached).0,
    )
