-- ===== src/Chat/Arguments.antt =====
-- What the arguments of the program come to.
use gio_net.Base.{
  ℕ, ◌≡◌, ◌<◌, refl, sym, ◌∙◌, ap, true, false, Option, none, some, List, [], ◌∷◌, All,
  if◌then◌else◌, length, Bool-cases, inl, inr,
}
use gio_net.Address.{text_equal}
use gio_net.Address.Keys.{text_equal_iff}
use gio_net.Chat.Args.{npos, Args, set_arg, get_arg, find_arg, parse_args}
use gio_net.Chat.Argument.{setting, apply, settings, parse_arg_lem}

-- The loop.
parse_args-settings :
    (argv : List (List ℕ)) (m : Args)
    → All (λ arg. length arg < npos) argv
    → parse_args argv m ≡ some (settings argv m)
unfolding parse_args
parse_args-settings [] m h = refl
parse_args-settings (arg ∷ argv) m h =
    rw (parse_args, parse_arg_lem arg m h.0) (parse_args-settings argv (apply (setting arg) m) h.1)

-- What a key is set to by an assignment.
find_arg-set_arg :
    (k key val : List ℕ) (m : Args)
    → find_arg k (set_arg key val m) ≡ (if text_equal key k then some val else find_arg k m)
unfolding find_arg set_arg
find_arg-set_arg k key val [] = refl
find_arg-set_arg k key val ((k0, v) ∷ rest) = elim (Bool-cases (text_equal k0 key)) [
  | inl e ↦ elim (Bool-cases (text_equal k0 k)) [
    | inl f ↦ rw (e, f, sym (ap (λ x. text_equal x k) ((text_equal_iff k0 key).0 e)) ∙ f) refl
    | inr f ↦ rw (e, f, sym (ap (λ x. text_equal x k) ((text_equal_iff k0 key).0 e)) ∙ f) refl
  ]
  | inr e ↦ elim (Bool-cases (text_equal k0 k)) [
    | inl f ↦ rw (e, f, apart e f) refl
    | inr f ↦ rw (e, f, find_arg-set_arg k key val rest) refl
  ]
]
  where
    apart : text_equal k0 key ≡ false → text_equal k0 k ≡ true → text_equal key k ≡ false
    apart e f = elim (Bool-cases (text_equal key k)) [
      | inl g ↦
          let same : k0 ≡ key = (text_equal_iff k0 k).0 f ∙ sym ((text_equal_iff key k).0 g) in
          let yes = (text_equal_iff k0 key).1 same in cc
      | inr g ↦ g
    ]

abbrev value_or_empty : Option (List ℕ) → List ℕ
value_or_empty none = []
value_or_empty (some v) = v

-- `operator[]` and `find` look at the same entry.
get_arg-find_arg : (key : List ℕ) (m : Args) → get_arg key m ≡ value_or_empty (find_arg key m)
unfolding get_arg find_arg
get_arg-find_arg key [] = refl
get_arg-find_arg key ((k, v) ∷ rest) = elim (Bool-cases (text_equal k key)) [
  | inl e ↦ rw e refl
  | inr e ↦ rw e (get_arg-find_arg key rest)
]

-- What an argument makes of the value of a key.
abbrev pub updated : List ℕ → Option (List ℕ × List ℕ) → List ℕ → List ℕ
updated key none old = old
updated key (some (k, val)) old = if text_equal k key then val else old

-- The value of a key after all arguments: that of the last one which sets it.
abbrev pub last_value : List ℕ → List (List ℕ) → List ℕ → List ℕ
last_value key [] old = old
last_value key (arg ∷ argv) old = last_value key argv (updated key (setting arg) old)

-- What an argument makes of the entry of a key.
abbrev pub reset : List ℕ → Option (List ℕ × List ℕ) → Option (List ℕ) → Option (List ℕ)
reset key none old = old
reset key (some (k, val)) old = if text_equal k key then some val else old

-- The entry of a key after all arguments.
abbrev pub last_setting : List ℕ → List (List ℕ) → Option (List ℕ) → Option (List ℕ)
last_setting key [] old = old
last_setting key (arg ∷ argv) old = last_setting key argv (reset key (setting arg) old)

find_arg-apply :
    (key : List ℕ) (o : Option (List ℕ × List ℕ)) (m : Args)
    → find_arg key (apply o m) ≡ reset key o (find_arg key m)
find_arg-apply key none m = refl
find_arg-apply key (some (k, val)) m = find_arg-set_arg key k val m

find_arg-settings :
    (key : List ℕ) (argv : List (List ℕ)) (m : Args)
    → find_arg key (settings argv m) ≡ last_setting key argv (find_arg key m)
find_arg-settings key [] m = refl
find_arg-settings key (arg ∷ argv) m =
    find_arg-settings key argv (apply (setting arg) m)
    ∙ ap (last_setting key argv) (find_arg-apply key (setting arg) m)

reset-updated :
    (key : List ℕ) (o : Option (List ℕ × List ℕ)) (old : Option (List ℕ))
    → value_or_empty (reset key o old) ≡ updated key o (value_or_empty old)
reset-updated key none old = refl
reset-updated key (some (k, val)) old = elim (Bool-cases (text_equal k key)) [
  | inl e ↦ rw e refl
  | inr e ↦ rw e refl
]

last_setting-last_value :
    (key : List ℕ) (argv : List (List ℕ)) (old : Option (List ℕ))
    → value_or_empty (last_setting key argv old) ≡ last_value key argv (value_or_empty old)
last_setting-last_value key [] old = refl
last_setting-last_value key (arg ∷ argv) old =
    last_setting-last_value key argv (reset key (setting arg) old)
    ∙ ap (last_value key argv) (reset-updated key (setting arg) old)

-- After `ParseArgs` the table has for each key the entry of the last argument that sets it.
pub parse_args-find_arg :
    (argv : List (List ℕ))
    → All (λ arg. length arg < npos) argv
    → (m : Args) × (parse_args argv [] ≡ some m)
      × ((key : List ℕ) → find_arg key m ≡ last_setting key argv none)
      × ((key : List ℕ) → get_arg key m ≡ last_value key argv [])
unfolding find_arg
parse_args-find_arg argv h =
    let entries = λ (key : List ℕ). find_arg-settings key argv [] in
    (
      settings argv [],
      parse_args-settings argv [] h,
      entries,
      λ key.
          get_arg-find_arg key (settings argv [])
          ∙ ap value_or_empty (entries key)
          ∙ last_setting-last_value key argv none,
    )

-- `ParseArgs` never throws on arguments that are shorter than the greatest size_t, and afterwards
-- each key has the value of the last argument that sets it, or is empty. An argument that begins
-- with a dash sets the key between it and the first colon to what stands behind the colon;
-- without a colon it sets the key after the dash to the whole argument; and no other argument
-- sets any.
pub parse_args_lem :
    (argv : List (List ℕ))
    → All (λ arg. length arg < npos) argv
    → (m : Args) × (parse_args argv [] ≡ some m)
      × ((key : List ℕ) → get_arg key m ≡ last_value key argv [])
parse_args_lem argv h =
    let (m, parsed, entries, values) = parse_args-find_arg argv h in (m, parsed, values)
