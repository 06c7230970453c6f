-- ===== src/Logger/Tests.antt =====
-- The theorem on `printL` at a concrete input.
use vlan_tagger.Prelude.{ℕ, ◌≡◌, refl, false, List, [], ◌∷◌, ◌++◌, Option, some, none, pos, Bytes}
use vlan_tagger.Logger.{warning, parser, Log, Clock, message, get_time, print_log}

-- A clock at "12:00".
abbrev noon : Bytes
noon = 49 ∷ 50 ∷ 58 ∷ 48 ∷ 48 ∷ []

abbrev clock : Clock
clock = record { time = some 0; localtime = λ t. some t; strftime = λ tm. some noon }

-- The third write fails after two characters.
abbrev failing : List (Option ℕ)
failing = none ∷ none ∷ some 2 ∷ []

before : List (Option ℕ) → Log
before fates = record { file = some (7 ∷ []); locked = false; fates = fates }

-- "12:00\t[WARN]\tPARS: ok\n" has 22 characters.
printed_line :
    print_log warning parser (message (pos 2) (111 ∷ 107 ∷ [])) clock (before [])
    ≡ some (
      pos 22,
      record {
        file = some (
            7 ∷ noon
            ++ 9 ∷ 91 ∷ 87 ∷ 65 ∷ 82 ∷ 78 ∷ 93 ∷ 9 ∷ 80 ∷ 65 ∷ 82 ∷ 83 ∷ 58 ∷ 32 ∷ 111 ∷ 107 ∷ 10
              ∷ []);
        locked = false;
        fates = [];
      },
    )
unfolding print_log get_time before
printed_line = refl
