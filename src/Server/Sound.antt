-- ===== src/Server/Sound.antt =====
-- The invariant of the server's table and store, and the steps that keep it.
use gio_net.Base.{
  ℕ, ◌+◌, ◌<◌, ◌≡◌, refl, sym, ◌∙◌, true, false, arith, some, List, [], ◌∷◌, ◌==◌, ==_iff, All,
  Bool-cases, inl, inr,
}
use mathlib.Core.Path.{subst}
use mathlib.Core.Option.{some_inj}
use gio_net.Base.Map.{Map, find, insert, find-insert}
use gio_net.Connection.{Connection, has_received_packet}
use gio_net.Connection.Invariant.{IsValid}
use gio_net.Server.{Server, get_peers}
use gio_net.Server.Each.{AreLive, AreLive-insert, member, is_there}
use gio_net.Server.Drain.{drained}

-- The peers are distinct objects, a new pointer is unlike theirs, and all connections are valid.
pub record IsSound (s : Server) : Type 0 where
  pub live : AreLive (get_peers s) s.connections
  pub fresh : All (λ p. p < s.next_pointer) (get_peers s)
  pub valid : (q : ℕ) (c : Connection) → find q s.connections ≡ some c → IsValid c

pub AreLive-member :
    (ps : List ℕ) (h : Map Connection) (p : ℕ)
    → AreLive ps h
    → member p ps ≡ true
    → is_there (find p h) ≡ true
AreLive-member [] h p a m = cc
AreLive-member (q ∷ ps) h p a m = elim (Bool-cases (q == p)) [
  | inl same ↦ rw (sym ((==_iff q p).0 same)) a.0
  | inr other ↦ AreLive-member ps h p a.2 (ground arith)
]

pub AreLive-same :
    (ps : List ℕ) (h h1 : Map Connection)
    → ((q : ℕ) → is_there (find q h1) ≡ is_there (find q h))
    → AreLive ps h
    → AreLive ps h1
AreLive-same [] h h1 same a = tt
AreLive-same (p ∷ ps) h h1 same a = (same p ∙ a.0, a.1, AreLive-same ps h h1 same a.2)

pub not_member : (ps : List ℕ) (n : ℕ) → All (λ p. p < n) ps → member n ps ≡ false
not_member [] n a = refl
not_member (p ∷ ps) n a = ground (arith, not_member ps n a.1, a.0)

pub All-lt-suc : (ps : List ℕ) (n : ℕ) → All (λ p. p < n) ps → All (λ p. p < n + 1) ps
All-lt-suc [] n a = tt
All-lt-suc (p ∷ ps) n a = (omega (arith, a.0), All-lt-suc ps n a.1)

-- One object is replaced by a valid one.
pub insert-IsValid :
    (h : Map Connection) (p : ℕ) (d : Connection)
    → ((q : ℕ) (c : Connection) → find q h ≡ some c → IsValid c)
    → IsValid d
    → (q : ℕ) (c : Connection) → find q (insert p d h) ≡ some c
    → IsValid c
insert-IsValid h p d valid v q c e = elim (Bool-cases (p == q)) [
  | inl same ↦
      let now : some d ≡ some c = rw same at (sym (find-insert p q d h) ∙ e) in
      subst IsValid (some_inj.0 now) v
  | inr other ↦ valid q c (rw other at (sym (find-insert p q d h) ∙ e))
]

pub insert-IsSound :
    (s : Server) (p : ℕ) (d : Connection)
    → IsSound s
    → IsValid d
    → IsSound (record s { connections = insert p d s.connections })
unfolding get_peers
insert-IsSound s p d k v = record {
  live = AreLive-insert (get_peers s) p d s.connections k.live;
  fresh = k.fresh;
  valid = insert-IsValid s.connections p d k.valid v;
}

pub drained-IsValid : (c : Connection) → IsValid c → IsValid (drained c)
drained-IsValid c v = record {
  kept = v.kept;
  arrived = v.arrived;
  sending = v.sending;
  out_sequence = v.out_sequence;
  in_sequence = v.in_sequence;
  ack_in_range = v.ack_in_range;
  ack_arrived = unfold has_received_packet in v.ack_arrived;
}
