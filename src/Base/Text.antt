-- ===== src/Base/Text.antt =====
-- A literal text of the source as the list of its bytes, all of them ASCII.
use Prim.Native.Char.{code}
use Prim.Native.Nat.{ℕ}
use Prim.Native.String.{String}
use mathlib.Core.List.{List, [], ◌∷◌}

abbrev pub bytes_of : String → List ℕ
bytes_of = elim [ String.[] ↦ [] | String.◌∷◌ c (rest → bytes) ↦ code c ∷ bytes ]
