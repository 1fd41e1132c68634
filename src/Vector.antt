-- ===== src/Vector.antt =====
-- What Containers/container.c uses of the library behind Containers/includes/vector.h:
-- `int_vector_create`, `vector_size`, `vector_get` and `vector_push_back`. The library is a parameter;
-- its laws are what vector.h documents.
pub mod Listed
use proxy.Base.{ℕ, zero, suc, ◌+◌, ◌<◌, ◌≡◌, refl, ap, sym, ◌∙◌, List, [], ◌∷◌, ◌++◌, arith, length}
use proxy.Base.Int.{ℤ}

pub record IntVector : Type 1 where
  pub State : Type 0
  pub create : State
  pub size : State → ℕ
  pub get : State → ℕ → ℤ
  pub push_back : State → ℤ → State

pub record IsLawful (V : IntVector) : Type 0 where
  pub size-create : V.size V.create ≡ 0
  pub size-push_back : (s : V.State) (x : ℤ) → V.size (V.push_back s x) ≡ V.size s + 1
  pub get-last : (s : V.State) (x : ℤ) → V.get (V.push_back s x) (V.size s) ≡ x
  pub get-before :
      (s : V.State) (x : ℤ) (n : ℕ) → n < V.size s → V.get (V.push_back s x) n ≡ V.get s n

module _ (V : IntVector) where
  -- The `n` elements from `i` on, and all of them.
  abbrev pub entries : V.State → ℕ → ℕ → List ℤ
  entries s i zero = []
  entries s i (suc n) = V.get s i ∷ entries s (suc i) n

  abbrev pub elements : V.State → List ℤ
  elements s = entries s 0 (V.size s)

  pub length-entries : (s : V.State) (i n : ℕ) → length (entries s i n) ≡ n
  length-entries s i zero = refl
  length-entries s i (suc n) = ap suc (length-entries s (suc i) n)

  module _ (L : IsLawful V) where
    entries-push_back :
        (s : V.State) (x : ℤ) (i n : ℕ)
        → i + n ≡ V.size s
        → entries (V.push_back s x) i (suc n) ≡ entries s i n ++ (x ∷ [])
    entries-push_back s x i zero e =
        let at_end : i ≡ V.size s = omega (arith, e) in
        ap (λ z. z ∷ []) (ap (V.get (V.push_back s x)) at_end ∙ L.get-last s x)
    entries-push_back s x i (suc n) e =
        ap (λ z. z ∷ entries (V.push_back s x) (suc i) (suc n))
          (L.get-before s x i (omega (arith, e)))
        ∙ ap (λ zs. V.get s i ∷ zs) (entries-push_back s x (suc i) n (omega (arith, e)))

    pub elements-push_back :
        (s : V.State) (x : ℤ) → elements (V.push_back s x) ≡ elements s ++ (x ∷ [])
    elements-push_back s x =
        let grown : V.size (V.push_back s x) ≡ suc (V.size s) =
          omega (arith, L.size-push_back s x) in
        ap (entries (V.push_back s x) 0) grown ∙ entries-push_back s x 0 (V.size s) (omega arith)

    pub elements-create : elements V.create ≡ []
    elements-create = rw L.size-create refl
