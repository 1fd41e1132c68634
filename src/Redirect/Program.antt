-- ===== src/Redirect/Program.antt =====
-- Whom the whole run of redirect.c contacts.
use proxy.Base.{ℕ, ◌≡◌, false, List, [], ◌∷◌}
use proxy.Sys.{Event, contacts}
use proxy.Redirect.{is_blocked}
use proxy.Redirect.Blocking.{Prefixed}

-- No host of the list is blocked.
abbrev AllFree : List (List ℕ) → List (List ℕ) → Type 0
AllFree block_arr [] = Unit {0}
AllFree block_arr (host ∷ hosts) = (is_blocked block_arr host ≡ false) × AllFree block_arr hosts

module _ (block_arr : List (List ℕ)) where
  -- The program has contacted no host that is blocked.
  abbrev Free : List Event → Type 0
  Free es = AllFree block_arr (contacts es)

-- No host of the list starts with a name of the file.
abbrev pub NonePrefixed : List (List ℕ) → List (List ℕ) → Type 0
NonePrefixed lines [] = Unit {0}
NonePrefixed lines (host ∷ hosts) = (¬ Prefixed host lines) × NonePrefixed lines hosts
