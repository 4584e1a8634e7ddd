-- ===== src/Server/Keeps.antt =====
-- Steps that change the connections of the peers one by one, or one of them, and keep the
-- invariants.
use mathlib.Core.Path.{subst}
use mathlib.Core.Option.{some_inj}
use gio_net.Base.{
  ℕ, ◌≡◌, refl, sym, ap, ◌∙◌, Bool, true, false, Option, none, some, if◌then◌else◌, ◌==◌, ==_iff,
  Bool-cases, inl, inr, ◌⊎◌,
}
use gio_net.Base.Map.{find, insert, find-insert}
use gio_net.Address.{NetAddress}
use gio_net.Connection.{Connection}
use gio_net.Connection.Invariant.{IsValid}
use gio_net.Server.{Server, get_peers, try_get_peer}
use gio_net.Server.Each.{member, is_there, option_map}
use gio_net.Server.Sound.{IsSound, AreLive-same}
use gio_net.Server.Table.{IsKeyTest, IsTable}

-- The connection of each peer is changed in the same way, and all else in the table is as it was.
pub record Changes (f : Connection → Connection) (s t : Server) : Type 0 where
  pub same_peers : t.peers ≡ s.peers
  pub same_next : t.next_pointer ≡ s.next_pointer
  pub effect :
      (q : ℕ)
      → find q t.connections ≡ (
          if member q (get_peers s)
          then option_map f (find q s.connections)
          else find q s.connections)

-- What is found was there, and is as it was or changed.
found_before :
    (f : Connection → Connection) (b : Bool) (o : Option Connection) (d : Connection)
    → (if b then option_map f o else o) ≡ some d
    → (c : Connection) × (o ≡ some c) × ((d ≡ c) ⊎ (d ≡ f c))
found_before f true none d e = cc
found_before f true (some c) d e = (c, refl, inr (sym (some_inj.0 e)))
found_before f false o d e = (d, e, inl refl)

found_after :
    (f : Connection → Connection) (b : Bool) (o : Option Connection) (c : Connection)
    → o ≡ some c
    → (d : Connection) × ((if b then option_map f o else o) ≡ some d) × ((d ≡ c) ⊎ (d ≡ f c))
found_after f true o c e = (f c, ap (option_map f) e, inr refl)
found_after f false o c e = (c, e, inl refl)

is_there-changed :
    (f : Connection → Connection) (b : Bool) (o : Option Connection)
    → is_there (if b then option_map f o else o) ≡ is_there o
is_there-changed f true none = refl
is_there-changed f true (some c) = refl
is_there-changed f false o = refl

pub Changes-IsSound :
    (f : Connection → Connection) (s t : Server)
    → ((c : Connection) → IsValid c → IsValid (f c))
    → IsSound s
    → Changes f s t
    → IsSound t
unfolding get_peers
Changes-IsSound f s t keeps k ch =
    let same : get_peers t ≡ get_peers s = rw ch.same_peers refl in
    record {
      live = rw same (
          AreLive-same (get_peers s) s.connections t.connections
            (λ q.
              rw (ch.effect q) (is_there-changed f (member q (get_peers s)) (find q s.connections)))
            k.live);
      fresh = rw (same, ch.same_next) k.fresh;
      valid = λ q d e. valid q d (
          found_before f (member q (get_peers s)) (find q s.connections) d (sym (ch.effect q) ∙ e));
    }
  where
    valid :
        (q : ℕ) (d : Connection)
        → (c : Connection) × (find q s.connections ≡ some c) × ((d ≡ c) ⊎ (d ≡ f c))
        → IsValid d
    valid q d (c, there, inl e) = subst IsValid (sym e) (k.valid q c there)
    valid q d (c, there, inr e) = subst IsValid (sym e) (keeps c (k.valid q c there))

module _ (same_key : NetAddress → NetAddress → Bool) (k : IsKeyTest same_key) where
  pub Changes-IsTable :
      (f : Connection → Connection) (s t : Server)
      → ((c : Connection) → (f c).address ≡ c.address)
      → IsTable same_key k s
      → Changes f s t
      → IsTable same_key k t
  unfolding try_get_peer
  Changes-IsTable f s t keeps i ch = record {
    distinct = rw ch.same_peers i.distinct;
    keyed = λ a p e. keyed a p (i.keyed a p (rw ch.same_peers at e));
    fresh = λ a p e. rw ch.same_next (i.fresh a p (rw ch.same_peers at e));
  }
    where
      keyed :
          (a : NetAddress) (p : ℕ)
          → (c : Connection) × (find p s.connections ≡ some c) × (same_key c.address a ≡ true)
          → (d : Connection) × (find p t.connections ≡ some d) × (same_key d.address a ≡ true)
      keyed a p (c, there, key) =
          let (d, now, which) =
            found_after f (member p (get_peers s)) (find p s.connections) c there in
          (d, ch.effect p ∙ now, ap (λ x. same_key x a) (same_address c d which) ∙ key)
        where
          same_address : (c d : Connection) → (d ≡ c) ⊎ (d ≡ f c) → d.address ≡ c.address
          same_address c d (inl e) = ap (λ x. x.address) e
          same_address c d (inr e) = ap (λ x. x.address) e ∙ keeps c

  -- One object is replaced by one with the same address.
  pub insert-IsTable :
      (s : Server) (q : ℕ) (c d : Connection)
      → find q s.connections ≡ some c
      → d.address ≡ c.address
      → IsTable same_key k s
      → IsTable same_key k (record s { connections = insert q d s.connections })
  unfolding try_get_peer
  insert-IsTable s q c d there same i = record {
    distinct = i.distinct;
    keyed = λ a p e. elim (Bool-cases (q == p)) [
      | inl h ↦
          let (c0, there0, key) = i.keyed a p e in
          let one : c ≡ c0 =
            some_inj.0 (sym there ∙ ap (λ x. find x s.connections) ((==_iff q p).0 h) ∙ there0) in
          (
            d,
            rw (find-insert q p d s.connections, h) refl,
            ap (λ x. same_key x a) (same ∙ ap (λ x. x.address) one) ∙ key,
          )
      | inr h ↦
          let (c0, there0, key) = i.keyed a p e in
          (c0, rw (find-insert q p d s.connections, h) there0, key)
    ];
    fresh = i.fresh;
  }
