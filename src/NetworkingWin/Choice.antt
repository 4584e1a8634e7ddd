-- ===== src/NetworkingWin/Choice.antt =====
-- Which program the arguments choose.
use gio_net.Base.{
  ℕ, ◌≡◌, ◌≢◌, ◌<◌, refl, false, none, some, List, [], All, length, bytes_of, inl, inr, Bool-cases,
}
use gio_net.Address.{text_equal}
use gio_net.Address.Keys.{text_equal_iff}
use gio_net.Chat.Args.{npos, Args}
use gio_net.Chat.Arguments.{last_value, last_setting, parse_args-find_arg}
use gio_net.NetworkingWin.{serves, connects, reports, no_server_ip, no_mode, program, read_args}

abbrev pub mode_key : List ℕ
mode_key = bytes_of "mode"

abbrev pub server_ip_key : List ℕ
server_ip_key = bytes_of "server_ip"

other : (s t : List ℕ) → s ≢ t → text_equal s t ≡ false
other s t ne = elim (Bool-cases (text_equal s t)) [
  | inl same ↦ absurd (ne ((text_equal_iff s t).0 same))
  | inr e ↦ e
]

-- What the arguments come to.
abbrev pub Chooses : List (List ℕ) → Type 0
Chooses argv =
    let mode = last_value mode_key argv [] in
    let server_ip = last_setting server_ip_key argv none in
    (m : Args) × (read_args argv ≡ some m)
    × (mode ≡ bytes_of "server" → program m ≡ serves)
    × (mode ≡ bytes_of "client"
        → (server_ip ≡ none → program m ≡ reports no_server_ip)
          × ((ip : List ℕ) → server_ip ≡ some ip → program m ≡ connects ip))
    × (mode ≢ bytes_of "server" → mode ≢ bytes_of "client" → program m ≡ reports no_mode)

-- The mode, and the ip of the server if one is given, are those of the last arguments that set
-- them. On arguments that are shorter than the greatest size_t the program runs a server just
-- when the mode is "server", and a client just when the mode is "client" and an ip is given,
-- which may be empty; otherwise it only reports an error.
pub program_lem : (argv : List (List ℕ)) → All (λ arg. length arg < npos) argv → Chooses argv
unfolding read_args program text_equal
program_lem argv h =
    let (m, parsed, entries, values) = parse_args-find_arg argv h in
    (
      m,
      parsed,
      λ e. rw (values mode_key, e) refl,
      λ e.
          rw (values mode_key, e, entries server_ip_key)
            ((λ none_given. rw none_given refl), (λ ip given. rw given refl)),
      λ e f.
          rw
            (
              values mode_key,
              other (last_value mode_key argv []) (bytes_of "server") e,
              other (last_value mode_key argv []) (bytes_of "client") f,
            )
            refl,
    )
