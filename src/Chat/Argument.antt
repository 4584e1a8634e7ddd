-- ===== src/Chat/Argument.antt =====
-- What one argument of the program sets.
use gio_net.Base.{
  ℕ, zero, suc, ◌+◌, ◌-◌, ◌%◌, ◌^◌, ◌≡◌, ◌<◌, ◌≤◌, refl, ◌∙◌, ap, arith, true, Option, none, some,
  List, [], ◌∷◌, ◌++◌, if◌then◌else◌, length, take, drop, ◌==◌, leb, take-append, length-append,
  Bool-cases, inl, inr, ◌⊎◌, ==_iff,
}
use gio_net.Chat.Args.{npos, substr, find_from, Args, set_arg, parse_arg}

-- A text up to the first character of a kind, and what follows it, if there is one.
abbrev pub cut : ℕ → List ℕ → List ℕ × Option (List ℕ)
cut c [] = ([], none)
cut c (x ∷ xs) =
    let (before, behind) = cut c xs in if x == c then ([], some xs) else (x ∷ before, behind)

abbrev pub value_of : List ℕ → Option (List ℕ) → List ℕ
value_of arg none = arg
value_of arg (some val) = val

-- The key and the value that an argument sets: what stands between the first character and the
-- first colon, and what stands behind the colon. Without a colon the key is all but the first
-- character and the value is the whole argument.
abbrev pub setting : List ℕ → Option (List ℕ × List ℕ)
setting [] = none
setting (x ∷ xs) =
    let (key, val) = cut b':' xs in if x == b'-' then some (key, value_of (x ∷ xs) val) else none

abbrev pub apply : Option (List ℕ × List ℕ) → Args → Args
apply none m = m
apply (some (key, val)) m = set_arg key val m

-- The settings of the arguments, one after the other.
abbrev pub settings : List (List ℕ) → Args → Args
settings [] m = m
settings (arg ∷ argv) m = settings argv (apply (setting arg) m)

-- Where `find` finds a character, and what is cut there.
record Found (c pos : ℕ) (s behind : List ℕ) : Type 0 where
  ends : (cut c s).1 ≡ some behind
  whole : s ≡ (cut c s).0 ++ (c ∷ behind)
  place : find_from c pos s ≡ pos + length (cut c s).0

record Missing (c pos : ℕ) (s : List ℕ) : Type 0 where
  ends : (cut c s).1 ≡ none
  whole : (cut c s).0 ≡ s
  place : find_from c pos s ≡ npos

cut_cases : (c pos : ℕ) (s : List ℕ) → Missing c pos s ⊎ ((behind : List ℕ) × Found c pos s behind)
unfolding find_from
cut_cases c pos [] = inl (record { ends = refl; whole = refl; place = refl })
cut_cases c pos (x ∷ xs) = elim (Bool-cases (x == c)) [
  | inl h ↦ inr (
    xs,
    record {
      ends = rw h refl;
      whole = rw h (ap (λ y. y ∷ xs) ((==_iff x c).0 h));
      place = rw h (omega arith);
    },
  )
  | inr h ↦ elim (cut_cases c (pos + 1) xs) [
    | inl m ↦ inl (record {
      ends = rw h m.ends;
      whole = rw h (ap (λ ys. x ∷ ys) m.whole);
      place = rw h m.place;
    })
    | inr (behind, f) ↦ inr (
      behind,
      record {
        ends = rw h f.ends;
        whole = rw h (ap (λ ys. x ∷ ys) f.whole);
        place = rw h (omega (arith, f.place));
      },
    )
  ]
]

take-all : (n : ℕ) (xs : List ℕ) → length xs ≤ n → take n xs ≡ xs
take-all zero [] h = refl
take-all zero (x ∷ xs) h = ground arith
take-all (suc n) [] h = refl
take-all (suc n) (x ∷ xs) h = ap (λ ys. x ∷ ys) (take-all n xs (omega (arith, h)))

-- The calls of `substr`, by the place that `find` gives.
parse_arg_at :
    (xs key val : List ℕ) (m : Args) (place : ℕ)
    → find_from b':' 1 xs ≡ place
    → substr 1 ((place + 2 ^ 64 - 1) % 2 ^ 64) (b'-' ∷ xs) ≡ some key
    → substr ((place + 1) % 2 ^ 64) npos (b'-' ∷ xs) ≡ some val
    → parse_arg (b'-' ∷ xs) m ≡ some (set_arg key val m)
unfolding parse_arg find_from
parse_arg_at xs key val m place p k v = rw (p, k, v) refl

substr_lem :
    (pos count : ℕ) (s v : List ℕ)
    → pos ≤ length s
    → take count (drop pos s) ≡ v
    → substr pos count s ≡ some v
substr_lem pos count s v h e =
    let inside : leb pos (length s) ≡ true = ground arith in rw (inside, e) refl

drop-past :
    (before behind : List ℕ) (c : ℕ) → drop (suc (length before)) (before ++ (c ∷ behind)) ≡ behind
drop-past [] behind c = refl
drop-past (x ∷ before) behind c = drop-past before behind c

substr-front :
    (n : ℕ) (before xs behind : List ℕ)
    → n ≡ length before
    → xs ≡ before ++ behind
    → substr 1 n (b'-' ∷ xs) ≡ some before
substr-front n before xs behind e whole =
    substr_lem 1 n (b'-' ∷ xs) before (omega arith) (rw (e, whole) (take-append before behind))

substr-rest :
    (n count : ℕ) (before xs behind : List ℕ)
    → n ≡ suc (suc (length before))
    → xs ≡ before ++ (b':' ∷ behind)
    → length xs < count
    → substr n count (b'-' ∷ xs) ≡ some behind
substr-rest n count before xs behind e whole h =
    let long = ap length whole ∙ length-append before (b':' ∷ behind) in
    substr_lem n count (b'-' ∷ xs) behind (omega (arith, e, long))
      (rw (e, whole, drop-past before behind b':') (take-all count behind (omega (arith, h, long))))

parse_arg-setting :
    (xs : List ℕ) (m : Args)
    → length xs + 1 < npos
    → parse_arg (b'-' ∷ xs) m ≡ some (apply (setting (b'-' ∷ xs)) m)
parse_arg-setting xs m h = elim (cut_cases b':' 1 xs) [
  | inl f ↦ rw f.ends (
      rw f.whole (
        parse_arg_at xs xs (b'-' ∷ xs) m npos f.place
          (substr_lem 1 18446744073709551614 (b'-' ∷ xs) xs (omega arith)
            (take-all 18446744073709551614 xs (omega (arith, h))))
          (substr_lem 0 npos (b'-' ∷ xs) (b'-' ∷ xs) (omega arith)
            (take-all npos (b'-' ∷ xs) (omega (arith, h))))))
  | inr (behind, f) ↦
      let before = (cut b':' xs).0 in
      let long = ap length f.whole ∙ length-append before (b':' ∷ behind) in
      rw f.ends (
        parse_arg_at xs before behind m (1 + length before) f.place
          (substr-front _ before xs (b':' ∷ behind) (omega (arith, h, long)) f.whole)
          (substr-rest _ npos before xs behind (omega (arith, h, long)) f.whole (omega (arith, h))))
]

-- Every argument, whatever its first character is.
pub parse_arg_lem :
    (arg : List ℕ) (m : Args) → length arg < npos → parse_arg arg m ≡ some (apply (setting arg) m)
unfolding parse_arg
parse_arg_lem [] m h = refl
parse_arg_lem (x ∷ xs) m h = elim (Bool-cases (x == b'-')) [
  | inl e ↦ dash x ((==_iff x b'-').0 e)
  | inr e ↦ rw (e, parse_arg) refl
]
  where
    dash : (x : ℕ) → x ≡ b'-' → parse_arg (x ∷ xs) m ≡ some (apply (setting (x ∷ xs)) m)
    dash x e = rw e (parse_arg-setting xs m (omega (arith, h)))
