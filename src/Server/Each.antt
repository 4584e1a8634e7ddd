-- ===== src/Server/Each.antt =====
-- The loop over the peers: what it does to the store of connections and to its own state.
use gio_net.Base.{
  ℕ, ◌≡◌, refl, Bool, true, false, ◌||◌, arith, Option, none, some, List, [], ◌∷◌, Result, ok,
  if◌then◌else◌, ◌==◌, Option-cases, Bool-cases, ==_iff, inl, inr,
}
use gio_net.Base.Map.{Map, find, insert, find-insert}
use gio_net.Connection.{Connection}
use gio_net.Server.{each}

abbrev pub member : ℕ → List ℕ → Bool
member q [] = false
member q (p ∷ ps) = p == q || member q ps

abbrev pub is_there : Option Connection → Bool
is_there none = false
is_there (some c) = true

-- Every pointer leads to an object, and none comes twice.
abbrev pub AreLive : List ℕ → Map Connection → Type 0
AreLive [] h = Unit
AreLive (p ∷ ps) h = (is_there (find p h) ≡ true) × (member p ps ≡ false) × AreLive ps h

abbrev pub option_map : (Connection → Connection) → Option Connection → Option Connection
option_map k none = none
option_map k (some c) = some (k c)

pub AreLive-insert :
    (ps : List ℕ) (p : ℕ) (c : Connection) (h : Map Connection)
    → AreLive ps h
    → AreLive ps (insert p c h)
AreLive-insert [] p c h a = tt
AreLive-insert (q ∷ ps) p c h a =
    (rw (find-insert p q c h) (ground arith), a.1, AreLive-insert ps p c h a.2)

abbrev pub next {ℓ} : {S : Type ℓ} → (S → Connection → S) → S → Option Connection → S
next g s none = s
next g s (some c) = g s c

-- The state of the loop, when the body makes `g s c` of the state and of the connection.
abbrev pub state_after {ℓ} : {S : Type ℓ} → (S → Connection → S) → List ℕ → S → Map Connection → S
state_after g [] s h = s
state_after g (p ∷ ps) s h = state_after g ps (next g s (find p h)) h

state_after-insert {ℓ} :
    {S : Type ℓ} (g : S → Connection → S) (ps : List ℕ) (s : S) (p : ℕ) (c : Connection)
    (h : Map Connection)
    → member p ps ≡ false
    → state_after g ps s (insert p c h) ≡ state_after g ps s h
state_after-insert g [] s p c h a = refl
state_after-insert g (q ∷ ps) s p c h a =
    let same : find q (insert p c h) ≡ find q h = rw (find-insert p q c h) (ground arith) in
    rw same (state_after-insert g ps (next g s (find q h)) p c h (ground arith))

moved :
    (k : Connection → Connection) (p q : ℕ) (c : Connection) (ps : List ℕ) (h : Map Connection)
    → find p h ≡ some c
    → member p ps ≡ false
    → (let now = if p == q then some (k c) else find q h in
        if member q ps then option_map k now else now)
      ≡ (if p == q || member q ps then option_map k (find q h) else find q h)
moved k p q c ps h e a = elim (Bool-cases (p == q)) [
  | inl same ↦
      let eq = (==_iff p q).0 same in
      let found = rw eq at e in let apart = rw eq at a in rw (same, apart, found) refl
  | inr other ↦ ground (arith, other)
]

module _ {ℓ κ} {S : Type ℓ} (P : S → Type κ) (body : S → Connection → Result (S × Connection))
    (g : S → Connection → S) (k : Connection → Connection)
    (total : (s : S) (c : Connection) → P s → body s c ≡ ok (g s c, k c))
    (keep : (s : S) (c : Connection) → P s → P (g s c)) where
  pub each_lem :
      (ps : List ℕ) (s : S) (h : Map Connection)
      → P s
      → AreLive ps h
      → (h1 : Map Connection) × (each body ps s h ≡ ok (state_after g ps s h, h1))
        × ((q : ℕ) → find q h1 ≡ (if member q ps then option_map k (find q h) else find q h))
  unfolding each
  each_lem [] s h r a = (h, refl, λ q. refl)
  each_lem (p ∷ ps) s h r a = elim (Option-cases (find p h)) [
    | inl e ↦ ground (arith, e, a.0)
    | inr (c, e) ↦
        let (h1, runs, effect) =
          each_lem ps (g s c) (insert p (k c) h) (keep s c r) (AreLive-insert ps p (k c) h a.2) in
        (
          h1,
          rw e (
              rw (total s c r) (rw runs (rw (state_after-insert g ps (g s c) p (k c) h a.1) refl))),
          λ q. rw (effect q) (rw (find-insert p q (k c) h) (moved k p q c ps h e a.1)),
        )
  ]
