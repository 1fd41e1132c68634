-- ===== src/SimpleSet.antt =====
-- What the proxies use of the set library behind set.h: `set_init`, `set_add` and `set_contains`.
-- The library is a parameter; its laws are what set.h documents.
pub mod Listed
use proxy.Base.{Bool, true, false, List, ℕ, ◌≡◌, ◌≢◌, ◌↔◌, ◌⊎◌}

-- SET_TRUE, SET_FALSE, SET_MALLOC_ERROR, SET_CIRCULAR_ERROR and SET_ALREADY_PRESENT.
pub data Status : Type 0 where
  set_true set_false malloc_error circular_error already_present : Status

-- Whether the key of a `set_add` with this result is in the set afterwards.
abbrev pub stored : Status → Bool
stored set_true = true
stored already_present = true
stored set_false = false
stored malloc_error = false
stored circular_error = false

pub record SimpleSet : Type 1 where
  pub State : Type 0
  pub set_init : State
  pub set_add : State → List ℕ → State × Status
  pub set_contains : State → List ℕ → Status

pub record IsLawful (S : SimpleSet) : Type 0 where
  pub contains-init : (k : List ℕ) → S.set_contains S.set_init k ≢ set_true
  pub contains-add :
      (s : S.State) (k j : List ℕ)
      → (S.set_contains (S.set_add s k).0 j ≡ set_true)
        ↔ (((stored (S.set_add s k).1 ≡ true) × (k ≡ j)) ⊎ (S.set_contains s j ≡ set_true))
