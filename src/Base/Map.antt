-- ===== src/Base/Map.antt =====
-- `std::map` with a number for its key, as an association list. The program looks keys up,
-- inserts and erases; it never walks the map, so the order of the entries does not matter.
use Prim.Native.Nat.{ℕ}
use mathlib.Core.Path.{◌≡◌, refl}
use mathlib.Core.Bool.{Bool, true, false}
use mathlib.Core.Option.{Option, none, some}
use mathlib.Core.List.{List, [], ◌∷◌}
use native.Mathlib.Omega.{arith}
use gio_net.Base.Tests.{◌==◌, if◌then◌else◌}

module _ {ℓ} where
  abbrev pub Map : Type ℓ → Type ℓ
  Map V = List (ℕ × V)

  module _ {V : Type ℓ} where
    unfoldable pub find : ℕ → Map V → Option V
    find k [] = none
    find k ((j, v) ∷ m) = if j == k then some v else find k m

    -- `m[k] = v`
    unfoldable pub insert : ℕ → V → Map V → Map V
    insert k v [] = (k, v) ∷ []
    insert k v ((j, w) ∷ m) = if j == k then (k, v) ∷ m else (j, w) ∷ insert k v m

    -- Every entry of the key goes.
    unfoldable pub erase : ℕ → Map V → Map V
    erase k [] = []
    erase k ((j, w) ∷ m) = if j == k then erase k m else (j, w) ∷ erase k m

    abbrev is_some : Option V → Bool
    is_some none = false
    is_some (some v) = true

    unfoldable pub contains : ℕ → Map V → Bool
    contains k m = is_some (find k m)

    pub find-insert :
        (k j : ℕ) (v : V) (m : Map V)
        → find j (insert k v m) ≡ (if k == j then some v else find j m)
    unfolding find insert
    find-insert k j v [] = refl
    find-insert k j v ((i, w) ∷ m) = ground (arith, find-insert k j v m)

    pub find-erase :
        (k j : ℕ) (m : Map V) → find j (erase k m) ≡ (if k == j then none else find j m)
    unfolding find erase
    find-erase k j [] = ground arith
    find-erase k j ((i, w) ∷ m) = ground (arith, find-erase k j m)

    pub contains-of-find : (k : ℕ) (v : V) (m : Map V) → find k m ≡ some v → contains k m ≡ true
    unfolding contains
    contains-of-find k v m h = rw h
