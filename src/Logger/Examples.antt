-- ===== src/Logger/Examples.antt =====
-- The logger with a variable that is set to 1 after the first text.
use gio_net.Base.{◌≡◌, refl, false, [], ◌∷◌, bytes_of}
use gio_net.Logger.{Variable, log_all, silent, make_logger, get_logger, log}

abbrev unset : Variable
unset = record { failed = false; size = 0; first = b'0' }

abbrev set_to_one : Variable
set_to_one = record { failed = false; size = 2; first = b'1' }

-- It comes too late.
printed_anyway :
    (log_all ((unset, bytes_of "a") ∷ (set_to_one, bytes_of "b") ∷ []) silent).printed
    ≡ bytes_of "ab"
unfolding make_logger get_logger log
printed_anyway = refl

-- It comes in time.
nothing_printed :
    (log_all ((set_to_one, bytes_of "a") ∷ (unset, bytes_of "b") ∷ []) silent).printed ≡ []
unfolding make_logger get_logger log
nothing_printed = refl
