-- ===== src/Server/KeyTest.antt =====
-- `NetAddress::operator==` of GioNet/src/Core.cpp as the test of the table of peers: it is an
-- equivalence.
use gio_net.Base.{◌≡◌, refl, sym, ◌∙◌, Bool, true, false, inl, inr, ◌⊎◌}
use gio_net.Address.{NetAddress, address_equal, is_loopback}
use gio_net.Address.Keys.{address_equal_iff}
use gio_net.Server.Table.{IsKeyTest}

abbrev AreSame : NetAddress → NetAddress → Type 0
AreSame a b =
    (a.port ≡ b.port) × ((a.ip ≡ b.ip) ⊎ ((is_loopback a ≡ true) × (is_loopback b ≡ true)))

AreSame-sym : {a b : NetAddress} → AreSame a b → AreSame b a
AreSame-sym (p, inl e) = (sym p, inl (sym e))
AreSame-sym (p, inr (x, y)) = (sym p, inr (y, x))

-- Whether an address is one of this machine is up to its text.
is_loopback_ip : (a b : NetAddress) → a.ip ≡ b.ip → is_loopback a ≡ is_loopback b
unfolding is_loopback
is_loopback_ip a b e = rw e refl

AreSame-trans : {a b c : NetAddress} → AreSame a b → AreSame b c → AreSame a c
AreSame-trans (p, inl e) (q, inl f) = (p ∙ q, inl (e ∙ f))
AreSame-trans {a} {b} (p, inl e) (q, inr (x, y)) = (p ∙ q, inr (is_loopback_ip a b e ∙ x, y))
AreSame-trans {a} {b} {c} (p, inr (x, y)) (q, inl f) =
    (p ∙ q, inr (x, sym (is_loopback_ip b c f) ∙ y))
AreSame-trans (p, inr (x, y)) (q, inr (z, w)) = (p ∙ q, inr (x, w))

same_truth : (x y : Bool) → (x ≡ true → y ≡ true) → (y ≡ true → x ≡ true) → x ≡ y
same_truth true y f g = sym (f refl)
same_truth false true f g = g refl
same_truth false false f g = refl

pub address_equal-IsKeyTest : IsKeyTest address_equal
address_equal-IsKeyTest = record {
  reflexive = λ a. (address_equal_iff a a).1 (refl, inl refl);
  symmetric = λ a b.
      same_truth _ _ (λ e. (address_equal_iff b a).1 (AreSame-sym ((address_equal_iff a b).0 e)))
        (λ e. (address_equal_iff a b).1 (AreSame-sym ((address_equal_iff b a).0 e)));
  transitive = λ a b c e.
      same_truth _ _
        (λ f.
          (address_equal_iff a c).1
            (AreSame-trans ((address_equal_iff a b).0 e) ((address_equal_iff b c).0 f)))
        (λ f. (address_equal_iff b c).1 (
          AreSame-trans (AreSame-sym ((address_equal_iff a b).0 e)) ((address_equal_iff a c).0 f)));
}
