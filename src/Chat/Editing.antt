-- ===== src/Chat/Editing.antt =====
-- The line that `ReadInput` of Chat/Chat.cpp reads, against a second description of it.
use gio_net.Base.{
  ℕ, zero, suc, ◌≡◌, refl, sym, ◌∙◌, ap, arith, true, false, ◌&&◌, some, List, [], ◌∷◌, ◌++◌,
  append_assoc, append-nil, All, if◌then◌else◌, ◌==◌, drop, Bool-cases, inl, inr, length, ltb,
}
use gio_net.Chat.{
  ChatHost, print, backspace, is_blank, is_end, erase_last, append_to_prompt, read_keys, read_input,
}

abbrev pub reversed : List ℕ → List ℕ
reversed [] = []
reversed (x ∷ xs) = reversed xs ++ (x ∷ [])

-- From the last key to the first: a backspace takes away one character before it, as far as there
-- are any. The number counts the backspaces that are still to take one.
abbrev pub kept : ℕ → List ℕ → List ℕ
kept n [] = []
kept zero (c ∷ cs) =
    let more = kept 1 cs in let rest = kept zero cs in if c == backspace then more else c ∷ rest
kept (suc n) (c ∷ cs) =
    let more = kept (suc (suc n)) cs in
    let rest = kept n cs in if c == backspace then more else rest

-- The text that keys leave.
abbrev pub edited : List ℕ → List ℕ
edited keys = reversed (kept 0 (reversed keys))

abbrev tail : List ℕ → List ℕ
tail [] = []
tail (x ∷ xs) = xs

-- A key on the characters before it, the last one first.
abbrev push : ℕ → List ℕ → List ℕ
push c cs = if c == backspace then tail cs else c ∷ cs

-- The prompt from its last character to its first, after keys from the last to the first.
abbrev stack : List ℕ → List ℕ
stack [] = []
stack (c ∷ cs) = push c (stack cs)

drop-tail : (n : ℕ) (xs : List ℕ) → drop (suc n) xs ≡ drop n (tail xs)
drop-tail zero [] = refl
drop-tail (suc n) [] = refl
drop-tail n (x ∷ xs) = refl

kept-drop : (n : ℕ) (cs : List ℕ) → kept n cs ≡ drop n (stack cs)
kept-drop zero [] = refl
kept-drop (suc n) [] = refl
kept-drop zero (c ∷ cs) = elim (Bool-cases (c == backspace)) [
  | inl h ↦ rw (h, kept-drop 1 cs) (drop-tail 0 (stack cs))
  | inr h ↦ rw (h, kept-drop 0 cs) refl
]
kept-drop (suc n) (c ∷ cs) = elim (Bool-cases (c == backspace)) [
  | inl h ↦ rw h (kept-drop (suc (suc n)) cs ∙ drop-tail (suc n) (stack cs))
  | inr h ↦ rw h (kept-drop n cs)
]

-- The same, with the keys from the first to the last.
abbrev stack_on : List ℕ → List ℕ → List ℕ
stack_on st [] = st
stack_on st (k ∷ ks) = stack_on (push k st) ks

stack_on-stack : (ks cs : List ℕ) → stack_on (stack cs) ks ≡ stack (reversed ks ++ cs)
stack_on-stack [] cs = refl
stack_on-stack (k ∷ ks) cs =
    stack_on-stack ks (k ∷ cs) ∙ ap stack (sym (append_assoc (reversed ks) (k ∷ []) cs))

edited-stack_on : (keys : List ℕ) → edited keys ≡ reversed (stack_on [] keys)
edited-stack_on keys = ap reversed (
    kept-drop 0 (reversed keys)
    ∙ sym (stack_on-stack keys [] ∙ ap stack (append-nil (reversed keys))))

erase_last-append : (xs : List ℕ) (x : ℕ) → erase_last (xs ++ (x ∷ [])) ≡ xs
erase_last-append [] x = refl
erase_last-append (y ∷ []) x = refl
erase_last-append (y ∷ z ∷ xs) x = ap (λ ys. y ∷ ys) (erase_last-append (z ∷ xs) x)

length-snoc : (xs : List ℕ) (x : ℕ) → ltb 0 (length (xs ++ (x ∷ []))) ≡ true
length-snoc [] x = refl
length-snoc (y ∷ xs) x = ground arith

is_blank-snoc : (xs : List ℕ) (x : ℕ) → is_blank (xs ++ (x ∷ [])) ≡ false
is_blank-snoc [] x = refl
is_blank-snoc (y ∷ xs) x = refl

-- A key that is put on the prompt.
append_to_prompt-push :
    (c : ℕ) (h : ChatHost) (st : List ℕ)
    → h.prompt ≡ reversed st
    → ((c == backspace) && is_blank h.prompt) ≡ false
    → ((append_to_prompt c h).prompt ≡ reversed (push c st))
      × ((append_to_prompt c h).username ≡ h.username)
append_to_prompt-push c h [] e more = elim (Bool-cases (c == backspace)) [
  | inl b ↦ blank (rw (b, e) at more)
  | inr b ↦ (rw b (ap (λ xs. xs ++ (c ∷ [])) e), rw b refl)
]
  where
    blank : {A : Type 0} → true ≡ false → A
    blank f = cc
append_to_prompt-push c h (x ∷ st) e more = elim (Bool-cases (c == backspace)) [
  | inl b ↦ (
    rw (b, e, length-snoc (reversed st) x) (erase_last-append (reversed st) x),
    rw (b, e, length-snoc (reversed st) x) refl,
  )
  | inr b ↦ (rw b (ap (λ xs. xs ++ (c ∷ [])) e), rw b refl)
]

read_keys-end :
    (end : ℕ) (rest : List ℕ) (h : ChatHost)
    → is_end end ≡ true
    → read_keys (end ∷ rest) h ≡ some (print (end ∷ []) h, rest)
unfolding read_keys
read_keys-end end rest h e =
    let other : (end == backspace) ≡ false = ground arith in rw (other, e, read_keys) refl

-- A backspace with nothing before it.
read_keys-skip :
    (k : ℕ) (keys : List ℕ) (h : ChatHost)
    → ((k == backspace) && is_blank h.prompt) ≡ true
    → read_keys (k ∷ keys) h ≡ read_keys keys h
unfolding read_keys
read_keys-skip k keys h e = rw (e, read_keys) refl

read_keys-append :
    (k : ℕ) (keys : List ℕ) (h : ChatHost)
    → ((k == backspace) && is_blank h.prompt) ≡ false
    → is_end k ≡ false
    → read_keys (k ∷ keys) h ≡ read_keys keys (append_to_prompt k (print (k ∷ []) h))
unfolding read_keys
read_keys-append k keys h e f = rw (e, f, read_keys) refl

-- A backspace on nothing leaves nothing.
push-blank :
    (k : ℕ) (h : ChatHost) (st : List ℕ)
    → h.prompt ≡ reversed st
    → ((k == backspace) && is_blank h.prompt) ≡ true
    → push k st ≡ st
push-blank k h [] e b = ground arith
push-blank k h (x ∷ st) e b =
    let f = is_blank-snoc (reversed st) x in ground (arith, rw (e, f) at b)

-- The loop up to the end of the line.
read_keys-push :
    (keys : List ℕ) (end : ℕ) (rest : List ℕ) (h : ChatHost) (st : List ℕ)
    → All (λ c. is_end c ≡ false) keys
    → is_end end ≡ true
    → h.prompt ≡ reversed st
    → (h1 : ChatHost) × (read_keys (keys ++ (end ∷ rest)) h ≡ some (h1, rest))
      × (h1.prompt ≡ reversed (stack_on st keys))
      × (h1.username ≡ h.username)
read_keys-push [] end rest h st a e p = (print (end ∷ []) h, read_keys-end end rest h e, p, refl)
read_keys-push (k ∷ keys) end rest h st a e p =
    elim (Bool-cases ((k == backspace) && is_blank h.prompt)) [
      | inl blank ↦
          let (h1, runs, q, name) = read_keys-push keys end rest h st a.1 e p in
          (
            h1,
            read_keys-skip k (keys ++ (end ∷ rest)) h blank ∙ runs,
            rw (push-blank k h st p blank) q,
            name,
          )
      | inr more ↦
          let (pushed, same) = append_to_prompt-push k (print (k ∷ []) h) st p more in
          let (h1, runs, q, name) =
            read_keys-push keys end rest (append_to_prompt k (print (k ∷ []) h)) (push k st) a.1 e
              pushed in
          (h1, read_keys-append k (keys ++ (end ∷ rest)) h more a.0 ∙ runs, q, name ∙ same)
    ]

-- When keys are typed and then the end of the line, `ReadInput` returns the text that is left
-- when each backspace takes away the last character that is still there before it, if there is
-- one; it reads no key after the end of the line, and the prompt keeps the text.
pub read_input_lem :
    (keys : List ℕ) (end : ℕ) (rest : List ℕ) (h : ChatHost)
    → All (λ c. is_end c ≡ false) keys
    → is_end end ≡ true
    → (h1 : ChatHost) × (read_input (keys ++ (end ∷ rest)) h ≡ some (edited keys, h1, rest))
      × (h1.prompt ≡ edited keys)
      × (h1.username ≡ h.username)
unfolding read_input
read_input_lem keys end rest h a e =
    let (h1, runs, q, name) = read_keys-push keys end rest (record h { prompt = [] }) [] a e refl in
    let same = q ∙ sym (edited-stack_on keys) in
    (print (b'\n' ∷ []) h1, rw (runs, same, read_input) refl, same, name)
