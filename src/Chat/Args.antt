-- ===== src/Chat/Args.antt =====
-- The arguments of the program: `ParseArgs` and the test of the mode in Chat/Chat.cpp.
-- (`ParseArgs` of NetworkingWin/NetworkingWin.cpp is the same text.)
use gio_net.Base.{
  ℕ, ◌+◌, ◌-◌, ◌%◌, ◌^◌, Bool, false, Option, none, some, List, [], ◌∷◌, if◌then◌else◌, length,
  take, drop, ◌==◌, leb, bytes_of,
}
use gio_net.Address.{text_equal}

-- std::string::npos, the greatest size_t.
abbrev pub npos : ℕ
npos = 18446744073709551615

-- `std::string::substr`; none when it throws.
abbrev pub substr : ℕ → ℕ → List ℕ → Option (List ℕ)
substr pos count s = if leb pos (length s) then some (take count (drop pos s)) else none

-- `std::string::find` of a character, from a position on.
unfoldable pub find_from : ℕ → ℕ → List ℕ → ℕ
find_from c pos [] = npos
find_from c pos (x ∷ xs) = let later = find_from c (pos + 1) xs in if x == c then pos else later

-- `args`
abbrev pub Args : Type 0
Args = List (List ℕ × List ℕ)

-- `args[key] = val`
unfoldable pub set_arg : List ℕ → List ℕ → Args → Args
set_arg key val [] = (key, val) ∷ []
set_arg key val ((k, v) ∷ rest) =
    let more = set_arg key val rest in if text_equal k key then (k, val) ∷ rest else (k, v) ∷ more

-- `args[key]`, which is empty when nothing was set.
unfoldable pub get_arg : List ℕ → Args → List ℕ
get_arg key [] = []
get_arg key ((k, v) ∷ rest) = let more = get_arg key rest in if text_equal k key then v else more

-- `args.find(key)`, in NetworkingWin
unfoldable pub find_arg : List ℕ → Args → Option (List ℕ)
find_arg key [] = none
find_arg key ((k, v) ∷ rest) =
    let more = find_arg key rest in if text_equal k key then some v else more

abbrev pub has_prefix : List ℕ → Bool
has_prefix [] = false
has_prefix (x ∷ xs) = x == b'-'

-- The two calls of `substr`, and the assignment; none when one of them throws.
abbrev set_both : Option (List ℕ) → Option (List ℕ) → Args → Option Args
set_both (some key) (some val) m = some (set_arg key val m)
set_both (some key) none m = none
set_both none val m = none

-- The body of the loop, on one argument. The size_t arithmetic wraps around.
unfoldable pub parse_arg : List ℕ → Args → Option Args
parse_arg arg m =
    if has_prefix arg
    then (let token_pos = find_from b':' 0 arg in
        set_both (substr 1 ((token_pos + 2 ^ 64 - 1) % 2 ^ 64) arg)
          (substr ((token_pos + 1) % 2 ^ 64) npos arg) m)
    else some m

abbrev then_parse : Option Args → (Args → Option Args) → Option Args
then_parse none next = none
then_parse (some m) next = next m

-- `ParseArgs`
unfoldable pub parse_args : List (List ℕ) → Args → Option Args
parse_args [] m = some m
parse_args (arg ∷ argv) m = then_parse (parse_arg arg m) (λ m1. parse_args argv m1)

-- Whether `main` starts a client; otherwise it starts a server.
unfoldable pub starts_client : Args → Bool
starts_client m = text_equal (get_arg (bytes_of "mode") m) (bytes_of "client")
