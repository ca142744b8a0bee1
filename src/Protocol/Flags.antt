-- ===== src/Protocol/Flags.antt =====
-- The flag bytes of rust/src/protocol.rs (`flags!`): `Reason`, `StatusFlags` and `Quirks`, each a
-- byte whose unknown bits are kept.
use hidpin.Base.{ℕ, Bool, not, ◌&&◌, List, [], ◌∷◌, ◌==◌, if◌then◌else◌, bit_and}
use hidpin.Base.Text.{Text, text, join}

abbrev pub level_changed : ℕ
level_changed = 0x01

abbrev pub output_applied : ℕ
output_applied = 0x02

abbrev pub config_changed : ℕ
config_changed = 0x04

abbrev pub periodic : ℕ
periodic = 0x08

abbrev pub output_reset : ℕ
output_reset = 0x10

abbrev pub host_request : ℕ
host_request = 0x80

abbrev pub overflow : ℕ
overflow = 0x01

abbrev pub more_events : ℕ
more_events = 0x02

abbrev pub pull_down_unreliable : ℕ
pull_down_unreliable = 0x01

-- Whether every bit of `other` is set.
unfoldable pub contains : ℕ → ℕ → Bool
contains flags other = not (other == 0) && bit_and flags other == other

-- The flags of each byte with their names, lowest first.
abbrev pub Names : Type 0
Names = List (ℕ × Text)

unfoldable pub reason_names : Names
reason_names =
    (level_changed, text "LEVEL_CHANGED")
    ∷ (output_applied, text "OUTPUT_APPLIED")
    ∷ (config_changed, text "CONFIG_CHANGED")
    ∷ (periodic, text "PERIODIC")
    ∷ (output_reset, text "OUTPUT_RESET")
    ∷ (host_request, text "HOST_REQUEST")
    ∷ []

unfoldable pub status_flag_names : Names
status_flag_names = (overflow, text "OVERFLOW") ∷ (more_events, text "MORE_EVENTS") ∷ []

unfoldable pub quirk_names : Names
quirk_names = (pull_down_unreliable, text "PULL_DOWN_UNRELIABLE") ∷ []

-- The names of the known bits that are set, lowest first.
unfoldable pub names : Names → ℕ → List Text
names [] flags = []
names ((bit, name) ∷ known) flags =
    let rest = names known flags in if bit_and flags bit == 0 then rest else name ∷ rest

display_names : List Text → Text
display_names [] = text "0"
display_names (n ∷ ns) = join (text "|") (n ∷ ns)

-- `impl fmt::Display`
unfoldable pub display : Names → ℕ → Text
unfolding display_names
display known flags = display_names (names known flags)
