-- ===== src/Connection/Delivery/Chain.antt =====
-- Packets whose ids follow one another.
use gio_net.Base.{ℕ, zero, suc, ◌≡◌, refl, List, [], ◌∷◌, ◌++◌, All, length, filter, map}
use mathlib.Core.Path.{ap₂}
use gio_net.Base.Map.{Map}
use gio_net.Packet.{Packet, is_reliable}
use gio_net.Connection.{next_expected}
use gio_net.Connection.Enqueue.{Run}
use gio_net.Connection.Invariant.{IsFiled, find-IsFiled}

abbrev pub Chain : ℕ → List Packet → ℕ → Type 0
Chain from [] to = from ≡ to
Chain from (p ∷ ps) to = (p.id ≡ next_expected from) × Chain (next_expected from) ps to

pub Chain-append :
    (a b c : ℕ) (xs ys : List Packet) → Chain a xs b → Chain b ys c → Chain a (xs ++ ys) c
Chain-append a b c [] ys h k = rw h k
Chain-append a b c (x ∷ xs) ys h k = (h.0, Chain-append (next_expected a) b c xs ys h.1 k)

pub Chain-prefix : (a c : ℕ) (xs ys : List Packet) → Chain a (xs ++ ys) c → (b : ℕ) × Chain a xs b
Chain-prefix a c [] ys h = (a, refl)
Chain-prefix a c (x ∷ xs) ys h =
    let r = Chain-prefix (next_expected a) c xs ys h.1 in (r.0, (h.0, r.1))

-- A run through a map of filed packets is a chain of reliable packets.
pub Run-Chain :
    (m : Map Packet) (a b : ℕ) (ps : List Packet)
    → All IsFiled m
    → Run m a ps b
    → Chain a (filter is_reliable ps) b
Run-Chain m a b [] f r = r
Run-Chain m a b (p ∷ ps) f r =
    let filed = find-IsFiled m (next_expected a) p f r.0 in
    rw (filed.1.0) (filed.0, Run-Chain m (next_expected a) b ps f r.1)

-- The n ids that follow an id.
unfoldable pub ids : ℕ → ℕ → List ℕ
ids from zero = []
ids from (suc n) = next_expected from ∷ ids (next_expected from) n

pub Chain-ids :
    (a b : ℕ) (ps : List Packet) → Chain a ps b → map (λ (p : Packet). p.id) ps ≡ ids a (length ps)
unfolding ids
Chain-ids a b [] h = refl
Chain-ids a b (p ∷ ps) h = ap₂ ◌∷◌ h.0 (Chain-ids (next_expected a) b ps h.1)
