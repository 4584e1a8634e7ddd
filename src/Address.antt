-- ===== src/Address.antt =====
-- `NetAddress` of GioNet/inc/Core.h and GioNet/src/Core.cpp. A text is the list of its bytes.
pub mod Keys
mod Examples
use gio_net.Base.{
  bytes_of, ℕ, Bool, true, false, not, ◌&&◌, ◌||◌, List, [], ◌∷◌, ◌++◌, ◌==◌, if◌then◌else◌,
  bit_xor,
}

pub record NetAddress : Type 0 where
  pub ip : List ℕ
  pub port : ℕ

-- What a reader of `c_str()` takes for the text: all up to the first zero byte.
abbrev pub c_string : List ℕ → List ℕ
c_string [] = []
c_string (c ∷ cs) = let rest = c_string cs in if c == 0 then [] else c ∷ rest

-- GIONET_DEFAULT_PORT
abbrev pub default_port : ℕ
default_port = 27015

-- `std::string::operator==`
unfoldable pub text_equal : List ℕ → List ℕ → Bool
text_equal [] [] = true
text_equal [] (y ∷ ys) = false
text_equal (x ∷ xs) [] = false
text_equal (x ∷ xs) (y ∷ ys) = x == y && text_equal xs ys

-- `std::string::starts_with`
unfoldable pub starts_with : List ℕ → List ℕ → Bool
starts_with s [] = true
starts_with [] (y ∷ ys) = false
starts_with (x ∷ xs) (y ∷ ys) = x == y && starts_with xs ys

-- `IsServer`
unfoldable pub is_server : NetAddress → Bool
is_server a = text_equal a.ip [] && not (a.port == 0)

-- `IsLoopback`
unfoldable pub is_loopback : NetAddress → Bool
is_loopback a = starts_with a.ip (bytes_of "127") || text_equal a.ip (bytes_of "localhost")

-- `operator==`. Its first test, on the identity of the objects, is a shortcut to the same answer.
unfoldable pub address_equal : NetAddress → NetAddress → Bool
address_equal a b =
    if not (b.port == a.port)
    then false
    else (if text_equal b.ip a.ip then true else is_loopback a && is_loopback b)

-- `ToString`, with the decimal digits of `std::format` as a parameter, and the hash, with those
-- of std::string and unsigned short.
module _ (decimal : ℕ → List ℕ) (hash_string : List ℕ → ℕ) (hash_port : ℕ → ℕ) where
  unfoldable pub to_string : NetAddress → List ℕ
  to_string a = a.ip ++ (b':' ∷ decimal a.port)

  unfoldable pub hash : NetAddress → ℕ
  unfolding to_string
  hash a = bit_xor (hash_string (to_string a)) (hash_port a.port)
