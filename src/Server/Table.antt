-- ===== src/Server/Table.antt =====
-- The table of peers as a map: what is found after a peer was added or removed. Two addresses
-- that are one key of the table lead to the same peer.
use gio_net.Base.{
  ℕ, ◌+◌, ◌<◌, ◌≡◌, refl, sym, ◌∙◌, Bool, true, false, arith, none, some, List, [], ◌∷◌, ok,
  if◌then◌else◌, Bool-cases, Option-cases, inl, inr,
}
use mathlib.Core.Option.{some_inj}
use gio_net.Base.Map.{find, insert, find-insert}
use gio_net.Address.{NetAddress}
use gio_net.Connection.{Connection, new_connection}
use gio_net.Server.{
  Server, peer_disconnected, peer_connected, find_peer, try_get_peer, has_peer, add_peer, erase_key,
  remove_peer,
}

-- When the hash table takes two addresses for one key: an equivalence.
pub record IsKeyTest (same_key : NetAddress → NetAddress → Bool) : Type 0 where
  pub reflexive : (a : NetAddress) → same_key a a ≡ true
  pub symmetric : (a b : NetAddress) → same_key a b ≡ same_key b a
  pub transitive : (a b c : NetAddress) → same_key a b ≡ true → same_key b c ≡ same_key a c

module _ (same_key : NetAddress → NetAddress → Bool) (k : IsKeyTest same_key) where
  -- No key is in the table twice.
  abbrev pub AreDistinct : List (NetAddress × ℕ) → Type 0
  AreDistinct [] = Unit {0}
  AreDistinct ((key, p) ∷ rest) = (find_peer same_key key rest ≡ none) × AreDistinct rest

  -- A key leads where every key that is the same leads.
  find_peer-same :
      (a b : NetAddress) (peers : List (NetAddress × ℕ))
      → same_key a b ≡ true
      → find_peer same_key a peers ≡ find_peer same_key b peers
  unfolding find_peer
  find_peer-same a b [] e = refl
  find_peer-same a b ((key, p) ∷ rest) e =
      let same : same_key key a ≡ same_key key b =
        k.symmetric key a ∙ sym (k.transitive a b key e) ∙ k.symmetric b key in
      rw (same, find_peer-same a b rest e) refl

  find_peer-erase_key :
      (a b : NetAddress) (peers : List (NetAddress × ℕ))
      → AreDistinct peers
      → find_peer same_key b (erase_key same_key a peers)
        ≡ (if same_key a b then none else find_peer same_key b peers)
  unfolding find_peer
  find_peer-erase_key a b [] d = ground arith
  find_peer-erase_key a b ((key, p) ∷ rest) d = elim (Bool-cases (same_key key a)) [
    | inl e ↦
        let same = k.transitive key a b e in
        elim (Bool-cases (same_key a b)) [
          | inl f ↦ rw (e, f) (sym (find_peer-same key b rest (sym same ∙ f)) ∙ d.0)
          | inr f ↦ rw (e, f, sym same ∙ f) refl
        ]
    | inr e ↦ elim (Bool-cases (same_key key b)) [
      | inl f ↦ rw (e, f, apart key a b e f) refl
      | inr f ↦ rw (e, f, find_peer-erase_key a b rest d.1) refl
    ]
  ]
    where
      apart :
          (key a b : NetAddress)
          → same_key key a ≡ false
          → same_key key b ≡ true
          → same_key a b ≡ false
      apart key a b e f = k.symmetric a b ∙ k.transitive key b a f ∙ e

  erase_key-AreDistinct :
      (a : NetAddress) (peers : List (NetAddress × ℕ))
      → AreDistinct peers
      → AreDistinct (erase_key same_key a peers)
  erase_key-AreDistinct a [] d = tt
  erase_key-AreDistinct a ((key, p) ∷ rest) d = elim (Bool-cases (same_key key a)) [
    | inl e ↦ rw e d.1
    | inr e ↦ rw e (
      rw (find_peer-erase_key a key rest d.1, k.symmetric a key, e) d.0,
      erase_key-AreDistinct a rest d.1,
    )
  ]

  -- The table of a server: no key twice, and each address leads to the connection with that
  -- address, or with one that is the same key.
  pub record IsTable (s : Server) : Type 0 where
    pub distinct : AreDistinct s.peers
    pub keyed :
        (a : NetAddress) (p : ℕ)
        → try_get_peer same_key s a ≡ some p
        → (c : Connection) × (find p s.connections ≡ some c) × (same_key c.address a ≡ true)
    pub fresh : (a : NetAddress) (p : ℕ) → try_get_peer same_key s a ≡ some p → p < s.next_pointer

  abbrev pub entered : Server → NetAddress → Server
  entered s a = record s {
    peers = (a, s.next_pointer) ∷ s.peers;
    connections = insert s.next_pointer (new_connection a) s.connections;
    next_pointer = s.next_pointer + 1;
  }

  pub entered-IsTable :
      (s : Server) (a : NetAddress)
      → IsTable s
      → try_get_peer same_key s a ≡ none
      → IsTable (entered s a)
  unfolding try_get_peer find_peer
  entered-IsTable s a t e = record {
    distinct = (e, t.distinct);
    keyed = λ b p f. elim (Bool-cases (same_key a b)) [
      | inl same ↦
          let here : s.next_pointer ≡ p = some_inj.0 (rw same at f) in
          (
            new_connection a,
            rw (sym here) (
                rw (find-insert s.next_pointer s.next_pointer (new_connection a) s.connections)
                  (ground arith)),
            same,
          )
      | inr other ↦
          let old = rw other at f in
          let (c, there, key) = t.keyed b p old in
          (
            c,
            rw (find-insert s.next_pointer p (new_connection a) s.connections)
                (ground (arith, t.fresh b p old)),
            key,
          )
    ];
    fresh = λ b p f. elim (Bool-cases (same_key a b)) [
      | inl same ↦ omega (arith, some_inj.0 (rw same at f))
      | inr other ↦ omega (arith, t.fresh b p (rw other at f))
    ];
  }

  -- In a server with such a table, `AddPeer` of an address that is there changes nothing and
  -- gives no peer. Of another one it gives a new connection of that address, which that address
  -- (and every one that is the same key) leads to from then on, while all others lead where they
  -- led; the table stays one, and the delegate is called.
  pub add_peer_lem :
      (s : Server) (a : NetAddress)
      → IsTable s
      → IsTable (add_peer same_key s a).1
        × (if has_peer same_key s a
            then add_peer same_key s a ≡ (none, s, [])
            else (t : Server) × (add_peer same_key s a
                ≡ (some s.next_pointer, t, peer_connected a ∷ []))
              × (find s.next_pointer t.connections ≡ some (new_connection a))
              × ((b : NetAddress)
                  → try_get_peer same_key t b
                    ≡ (if same_key a b then some s.next_pointer else try_get_peer same_key s b)))
  unfolding add_peer has_peer try_get_peer find_peer
  add_peer_lem s a t = elim (Option-cases (find_peer same_key a s.peers)) [
    | inl e ↦ rw e (
      entered-IsTable s a t e,
      (
        _,
        refl,
        rw (find-insert s.next_pointer s.next_pointer (new_connection a) s.connections)
            (ground arith),
        (λ b. refl),
      ),
    )
    | inr (p, e) ↦ rw e (t, refl)
  ]

  -- In a server with such a table, `RemovePeer` of a connection that an address leads to calls
  -- the delegate, and from then on that address, and every one that is the same key, leads
  -- nowhere, while all others lead where they led; the table stays one, and the connection itself
  -- lives on.
  pub remove_peer_lem :
      (s : Server) (a : NetAddress) (p : ℕ)
      → IsTable s
      → try_get_peer same_key s a ≡ some p
      → (t : Server) × (c : Connection) × (find p s.connections ≡ some c)
        × (remove_peer same_key s p ≡ ok (t, peer_disconnected c.address ∷ []))
        × IsTable t
        × ((b : NetAddress)
            → try_get_peer same_key t b
              ≡ (if same_key a b then none else try_get_peer same_key s b))
        × (t.connections ≡ s.connections)
  unfolding remove_peer has_peer try_get_peer
  remove_peer_lem s a p t e =
      let (c, there, key) = t.keyed a p e in
      let found : find_peer same_key c.address s.peers ≡ some p =
        find_peer-same c.address a s.peers key ∙ e in
      let gone = λ (b : NetAddress). find_peer-erase_key c.address b s.peers t.distinct in
      let shut : (b : NetAddress) (q : ℕ)
          → find_peer same_key b (erase_key same_key c.address s.peers) ≡ some q
          → find_peer same_key b s.peers ≡ some q =
        λ b q f. still b q c.address f (gone b) in
      (
        record s { peers = erase_key same_key c.address s.peers },
        c,
        there,
        rw (there, found) refl,
        record {
          distinct = erase_key-AreDistinct c.address s.peers t.distinct;
          keyed = λ b q f. t.keyed b q (shut b q f);
          fresh = λ b q f. t.fresh b q (shut b q f);
        },
        (λ b. gone b ∙ rw (sym (k.transitive c.address a b key)) refl),
        refl,
      )
    where
      still :
          (b : NetAddress) (q : ℕ) (d : NetAddress)
          → find_peer same_key b (erase_key same_key d s.peers) ≡ some q
          → find_peer same_key b (erase_key same_key d s.peers)
            ≡ (if same_key d b then none else find_peer same_key b s.peers)
          → find_peer same_key b s.peers ≡ some q
      still b q d f g = ground arith
