-- ===== src/SimpleSet/Listed.antt =====
-- A set that is a list of keys: the laws of set.h can be met.
use proxy.Base.{
  ℕ, ◌≡◌, inl, inr, ◌⊎◌, ◌↔◌, true, false, ◌||◌, List, [], ◌∷◌, arith, if◌then◌else◌, str_eq,
  eq_of_str_eq, str_eq_refl, Bool,
}
use proxy.SimpleSet.{SimpleSet, IsLawful, set_true, set_false, already_present, stored}

abbrev pub has : List (List ℕ) → List ℕ → Bool
has [] k = false
has (x ∷ xs) k = str_eq x k || has xs k

abbrev pub listed_set : SimpleSet
listed_set = record {
  State = List (List ℕ);
  set_init = [];
  set_add = λ s k. if has s k then (s, already_present) else (k ∷ s, set_true);
  set_contains = λ s k. if has s k then set_true else set_false;
}

add-has :
    (s : List (List ℕ)) (k j : List ℕ)
    → has (if has s k then s else k ∷ s) j ≡ true
    → (k ≡ j) ⊎ (has s j ≡ true)
add-has s k j h = ground (arith, eq_of_str_eq k j)

has-add :
    (s : List (List ℕ)) (k j : List ℕ)
    → (k ≡ j) ⊎ (has s j ≡ true)
    → has (if has s k then s else k ∷ s) j ≡ true
has-add s k j (inl e) = ground (arith, str_eq_refl k)
has-add s k j (inr h) = ground arith

add_iff :
    (s : List (List ℕ)) (k j : List ℕ)
    → (listed_set.set_contains (listed_set.set_add s k).0 j ≡ set_true) ↔ (
        ((stored (listed_set.set_add s k).1 ≡ true) × (k ≡ j))
        ⊎ (listed_set.set_contains s j ≡ set_true))
add_iff s k j = (λ h. ground (arith, add-has s k j), λ h. ground (arith, has-add s k j))

-- The laws of set.h hold of it.
pub listed_set-IsLawful : IsLawful listed_set
listed_set-IsLawful = record { contains-init = λ k. ground arith; contains-add = add_iff }
