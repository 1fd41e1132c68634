-- ===== src/Vector/Listed.antt =====
-- A vector that is a list: the laws of vector.h can be met.
use proxy.Base.{ℕ, zero, suc, ◌<◌, ◌≡◌, refl, List, [], ◌∷◌, ◌++◌, arith, length, length-append}
use proxy.Base.Int.{ℤ, pos}
use proxy.Vector.{IntVector, IsLawful}

-- Past the end, where vector.h says nothing, an element is 0.
abbrev pub entry : List ℤ → ℕ → ℤ
entry [] n = pos 0
entry (x ∷ xs) zero = x
entry (x ∷ xs) (suc n) = entry xs n

abbrev pub listed_vector : IntVector
listed_vector = record {
  State = List ℤ;
  create = [];
  size = λ s. length s;
  get = entry;
  push_back = λ s x. s ++ (x ∷ []);
}

entry-last : (s : List ℤ) (x : ℤ) → entry (s ++ (x ∷ [])) (length s) ≡ x
entry-last [] x = refl
entry-last (y ∷ s) x = entry-last s x

entry-before : (s : List ℤ) (x : ℤ) (n : ℕ) → n < length s → entry (s ++ (x ∷ [])) n ≡ entry s n
entry-before [] x n h = absurd (omega arith)
entry-before (y ∷ s) x zero h = refl
entry-before (y ∷ s) x (suc n) h = entry-before s x n (omega arith)

pub listed_vector-IsLawful : IsLawful listed_vector
listed_vector-IsLawful = record {
  size-create = refl;
  size-push_back = λ s x. length-append s (x ∷ []);
  get-last = entry-last;
  get-before = entry-before;
}
