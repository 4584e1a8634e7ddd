-- ===== src/Logger.antt =====
-- GioNet/inc/Logger.h and GioNet/src/Logger.cpp: the logger that an environment variable turns
-- off. The texts come formatted; what was printed is a list of bytes.
mod Examples
use gio_net.Base.{
  ℕ, ◌≡◌, refl, sym, ◌∙◌, ap, Bool, true, false, not, ◌&&◌, Option, none, some, List, [], ◌∷◌, ◌++◌,
  append_assoc, append-nil, if◌then◌else◌, ltb, ◌==◌, bytes_of, Bool-cases, inl, inr,
}

-- What `getenv_s` answers: whether it failed, the size it reports, and the first character that
-- it leaves in the buffer.
pub record Variable : Type 0 where
  pub failed : Bool
  pub size : ℕ
  pub first : ℕ

pub record Logger : Type 0 where
  pub enabled : Bool

-- The one logger, once there is one, and what was printed.
pub record Logging : Type 0 where
  pub instance : Option Logger
  pub printed : List ℕ

abbrev pub variable_error : List ℕ
variable_error = bytes_of "[ERROR]: Failed to retrieve logging variable. Use only 0 or 1\n"

-- Whether the variable is set to something that does not begin with a zero.
abbrev pub disables : Variable → Bool
disables v = ltb 0 v.size && not (v.first == b'0')

-- `Logger()`, and what it prints.
unfoldable pub make_logger : Variable → Logger × List ℕ
make_logger v =
    if v.failed
    then (record { enabled = true }, variable_error)
    else (record { enabled = not (disables v) }, [])

-- `Get`: the logger, and the state with it.
abbrev get_from : Variable → Option Logger → List ℕ → Logger × Logging
get_from v (some l) printed = (l, record { instance = some l; printed = printed })
get_from v none printed =
    let (l, error) = make_logger v in (l, record { instance = some l; printed = printed ++ error })

unfoldable pub get_logger : Variable → Logging → Logger × Logging
unfolding make_logger
get_logger v s = get_from v s.instance s.printed

-- `Log`, with `LogImpl`
unfoldable pub log : Variable → List ℕ → Logging → Logging
unfolding get_logger
log v text s =
    let (l, s1) = get_logger v s in
    if not l.enabled then s1 else record s1 { printed = s1.printed ++ text }

-- Nothing was logged.
abbrev pub silent : Logging
silent = record { instance = none; printed = [] }

-- Calls of `Log`, each with what getenv_s would answer at that time.
abbrev pub log_all : List (Variable × List ℕ) → Logging → Logging
log_all [] s = s
log_all ((v, text) ∷ more) s = log_all more (log v text s)

abbrev pub texts : List (Variable × List ℕ) → List ℕ
texts [] = []
texts ((v, text) ∷ more) = text ++ texts more

-- Once the logger is there, the variable does not count.
log_all-made :
    (calls : List (Variable × List ℕ)) (on : Bool) (printed : List ℕ)
    → (log_all calls
        (record { instance = some (record { enabled = on }); printed = printed })).printed
      ≡ printed ++ (if on then texts calls else [])
unfolding log
log_all-made [] true printed = sym (append-nil printed)
log_all-made [] false printed = sym (append-nil printed)
log_all-made ((v, text) ∷ more) true printed =
    log_all-made more true (printed ++ text) ∙ append_assoc printed text (texts more)
log_all-made ((v, text) ∷ more) false printed = log_all-made more false printed

log_all-first :
    (v : Variable) (text error : List ℕ) (calls : List (Variable × List ℕ)) (on : Bool)
    → make_logger v ≡ (record { enabled = on }, error)
    → (log_all ((v, text) ∷ calls) silent).printed
      ≡ error ++ (if on then texts ((v, text) ∷ calls) else [])
unfolding log
log_all-first v text error calls on e = rw (e, log_all) (log_all-made ((v, text) ∷ calls) on error)

-- The variable counts only as the first call of `Log` finds it: whatever it becomes, all texts
-- are printed in order, or none is when it is set, is read without an error, and does not begin
-- with a zero. When it cannot be read, an error comes first, and all is printed.
pub log_all_lem :
    (v : Variable) (text : List ℕ) (calls : List (Variable × List ℕ))
    → (log_all ((v, text) ∷ calls) silent).printed ≡ (
        if v.failed
        then variable_error ++ texts ((v, text) ∷ calls)
        else (if disables v then [] else texts ((v, text) ∷ calls)))
unfolding make_logger
log_all_lem v text calls = elim (Bool-cases v.failed) [
  | inl f ↦ simp f (log_all-first v text variable_error calls true (rw f refl))
  | inr f ↦ simp f (elim (Bool-cases (disables v)) [
    | inl d ↦ simp d (log_all-first v text [] calls false (rw (f, d) refl))
    | inr d ↦ simp d (log_all-first v text [] calls true (rw (f, d) refl))
  ])
]
