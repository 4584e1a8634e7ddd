-- ===== src/Address/Keys.antt =====
-- `operator==` of addresses.
use gio_net.Base.{ℕ, ◌≡◌, refl, true, arith, List, [], ◌∷◌, ◌↔◌, ◌⊎◌}
use mathlib.Core.Path.{ap₂}
use gio_net.Address.{NetAddress, text_equal, is_loopback, address_equal}

text_equal_refl : (s : List ℕ) → text_equal s s ≡ true
unfolding text_equal
text_equal_refl [] = refl
text_equal_refl (x ∷ s) = ground (arith, text_equal_refl s)

text_equal-eq : (s t : List ℕ) → text_equal s t ≡ true → s ≡ t
unfolding text_equal
text_equal-eq [] [] h = refl
text_equal-eq [] (y ∷ t) h = cc
text_equal-eq (x ∷ s) [] h = cc
text_equal-eq (x ∷ s) (y ∷ t) h = ap₂ ◌∷◌ (ground arith) (text_equal-eq s t (ground arith))

pub text_equal_iff : (s t : List ℕ) → (text_equal s t ≡ true) ↔ (s ≡ t)
text_equal_iff s t = (text_equal-eq s t, λ e. rw e (text_equal_refl t))

pub address_equal_iff :
    (a b : NetAddress)
    → (address_equal a b ≡ true)
      ↔ ((a.port ≡ b.port) × ((a.ip ≡ b.ip) ⊎ ((is_loopback a ≡ true) × (is_loopback b ≡ true))))
unfolding address_equal
address_equal_iff a b =
    (λ h. ground (arith, text_equal_iff b.ip a.ip), λ h. ground (arith, text_equal_iff b.ip a.ip))
