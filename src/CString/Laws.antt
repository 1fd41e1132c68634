-- ===== src/CString/Laws.antt =====
-- Where `strstr` finds its needle, and what `strncpy` leaves in the array.
use proxy.Base.{
  ℕ, zero, suc, ◌-◌, ◌≤◌, ◌<◌, ◌≡◌, refl, ◌≢◌, inl, inr, true, ◌∙◌, sym, ap, some, List, [], ◌∷◌,
  ◌++◌, arith, ◌==◌, length, replicate, take-length-append, Bool-cases, none, Option-cases,
}
use proxy.CString.{c_str, array_str, starts_with, strstr, strncpy}

-- No byte of the text is `b`.
abbrev pub Lacks : ℕ → List ℕ → Type 0
Lacks b [] = Unit {0}
Lacks b (x ∷ xs) = (x ≢ b) × Lacks b xs

pub starts_with-append :
    (needle s t : List ℕ)
    → length needle ≤ length s
    → starts_with needle (s ++ t) ≡ starts_with needle s
unfolding starts_with
starts_with-append [] s t h = refl
starts_with-append (x ∷ xs) [] t h = absurd (omega arith)
starts_with-append (x ∷ xs) (y ∷ ys) t h = rw (starts_with-append xs ys t (omega arith))

pub starts_with-length :
    (needle s : List ℕ) → starts_with needle s ≡ true → length needle ≤ length s
unfolding starts_with
starts_with-length [] s h = omega arith
starts_with-length (x ∷ xs) [] h = ground arith
starts_with-length (x ∷ xs) (y ∷ ys) h = ground (arith, starts_with-length xs ys)

pub starts_with_self : (s t : List ℕ) → starts_with s (s ++ t) ≡ true
unfolding starts_with
starts_with_self [] t = refl
starts_with_self (x ∷ xs) t = ground (arith, starts_with_self xs t)

-- A text that starts with the needle is the needle and a rest.
pub starts_with_split :
    (needle s : List ℕ) → starts_with needle s ≡ true → (t : List ℕ) × (s ≡ needle ++ t)
unfolding starts_with
starts_with_split [] s h = (s, refl)
starts_with_split (x ∷ xs) [] h = cc
starts_with_split (x ∷ xs) (y ∷ ys) h =
    let heads : y ≡ x = ground arith in
    let tails : starts_with xs ys ≡ true = ground arith in
    let (t, e) = starts_with_split xs ys tails in (t, cc)

strstr-length :
    (hay needle : List ℕ) {suf : List ℕ} → strstr hay needle ≡ some suf → length needle ≤ length hay
unfolding strstr
strstr-length [] needle h = ground (arith, starts_with-length needle [])
strstr-length (b ∷ bs) needle {suf} h = ground (
  arith,
  starts_with-length needle (b ∷ bs),
  λ (e : strstr bs needle ≡ some suf). strstr-length bs needle e,
)

-- Text added at the end does not move the first occurrence.
pub strstr-append :
    (hay needle t : List ℕ) {suf : List ℕ}
    → strstr hay needle ≡ some suf
    → strstr (hay ++ t) needle ≡ some (suf ++ t)
unfolding strstr starts_with
strstr-append [] [] [] h = ground arith
strstr-append [] [] (x ∷ t) h = ground arith
strstr-append [] (x ∷ needle) t h = ground (arith, starts_with-length (x ∷ needle) [])
strstr-append (b ∷ bs) needle t {suf} h = elim (Bool-cases (starts_with needle (b ∷ bs))) [
  | inl e ↦
      ground (arith, starts_with-append needle (b ∷ bs) t, starts_with-length needle (b ∷ bs) e)
  | inr e ↦
      let later : strstr bs needle ≡ some suf = ground arith in
      ground (
        arith,
        starts_with-append needle (b ∷ bs) t,
        strstr-length bs needle later,
        strstr-append bs needle t later,
      )
]

-- A text before the needle's first byte is passed over.
pub strstr-Lacks :
    (c : ℕ) (needle s t : List ℕ)
    → Lacks c s
    → strstr (s ++ ((c ∷ needle) ++ t)) (c ∷ needle) ≡ some ((c ∷ needle) ++ t)
unfolding strstr starts_with
strstr-Lacks c needle [] t h = ground (arith, starts_with_self needle t)
strstr-Lacks c needle (x ∷ s) t (ne, h) = ground (arith, strstr-Lacks c needle s t h)

-- What `strstr` returns is a suffix that starts with the needle.
pub strstr_split :
    (hay needle : List ℕ) {suf : List ℕ}
    → strstr hay needle ≡ some suf
    → (pre : List ℕ) × (t : List ℕ) × (hay ≡ pre ++ suf) × (suf ≡ needle ++ t)
unfolding strstr
strstr_split [] needle {suf} h =
    let empty : [] ≡ suf = ground arith in
    let (t, e) = starts_with_split needle suf (rw (← empty) (ground arith)) in ([], t, empty, e)
strstr_split (b ∷ bs) needle {suf} h = elim (Bool-cases (starts_with needle (b ∷ bs))) [
  | inl e ↦
      let (t, q) = starts_with_split needle (b ∷ bs) e in
      let same : b ∷ bs ≡ suf = ground arith in ([], t, same, sym same ∙ q)
  | inr e ↦
      let later : strstr bs needle ≡ some suf = ground arith in
      let (pre, t, p, q) = strstr_split bs needle later in (b ∷ pre, t, ap (λ s. b ∷ s) p, q)
]

-- For a one-byte needle nothing before the hit is that byte.
pub strstr_byte_split :
    (hay : List ℕ) (c : ℕ) {suf : List ℕ}
    → strstr hay (c ∷ []) ≡ some suf
    → (pre : List ℕ) × (t : List ℕ) × (hay ≡ pre ++ suf) × (suf ≡ c ∷ t) × Lacks c pre
unfolding strstr starts_with
strstr_byte_split [] c h = cc
strstr_byte_split (b ∷ bs) c {suf} h = elim (Bool-cases (c == b)) [
  | inl e ↦
      let same : c ≡ b = ground arith in
      let whole : b ∷ bs ≡ suf = ground arith in
      ([], bs, whole, sym whole ∙ ap (λ x. x ∷ bs) (sym same), tt)
  | inr e ↦
      let later : strstr bs (c ∷ []) ≡ some suf = ground arith in
      let (pre, t, p, q, l) = strstr_byte_split bs c later in
      (b ∷ pre, t, ap (λ s. b ∷ s) p, q, ((λ same. ground arith), l))
]

zeros_str : (n : ℕ) → 0 < n → array_str (replicate n 0) ≡ some []
unfolding array_str
zeros_str zero h = absurd (omega arith)
zeros_str (suc n) h = refl

-- An array that holds a text and then zeros reads as the text.
pub array_str_padded :
    (s : List ℕ) (n : ℕ) → Lacks 0 s → 0 < n → array_str (s ++ replicate n 0) ≡ some s
unfolding array_str
array_str_padded [] n l h = zeros_str n h
array_str_padded (x ∷ s) n (ne, l) h = ground (arith, array_str_padded s n l h)

-- `strncpy` of the first `length s` bytes into a larger array of zeros.
pub strncpy_fits :
    (size : ℕ) (s t : List ℕ)
    → length s ≤ size
    → strncpy size (s ++ t) (length s) ≡ some (s ++ replicate (size - length s) 0)
unfolding strncpy
strncpy_fits size s t h = rw (take-length-append s t) (ground arith)

pub strncpy_bound :
    (size : ℕ) (text : List ℕ) (n : ℕ) {a : List ℕ} → strncpy size text n ≡ some a → n ≤ size
unfolding strncpy
strncpy_bound size text n h = ground arith

-- The text of a buffer holds no NUL, and a text with none is its own.
pub c_str-Lacks : (s : List ℕ) → Lacks 0 (c_str s)
unfolding c_str
c_str-Lacks [] = tt
c_str-Lacks (x ∷ s) = elim (Bool-cases (x == 0)) [
  | inl e ↦ rw e tt
  | inr e ↦ rw e ((λ z. ground arith), c_str-Lacks s)
]

pub c_str_self : (s : List ℕ) → Lacks 0 s → c_str s ≡ s
unfolding c_str
c_str_self [] l = refl
c_str_self (x ∷ s) (ne, l) = ground (arith, c_str_self s l)

pub Lacks-append : (b : ℕ) (s t : List ℕ) → Lacks b (s ++ t) → Lacks b s × Lacks b t
Lacks-append b [] t l = (tt, l)
Lacks-append b (x ∷ s) t (ne, l) = let (p, q) = Lacks-append b s t l in ((ne, p), q)

pub array_str-Lacks : (s : List ℕ) → Lacks 0 s → array_str s ≡ none
unfolding array_str
array_str-Lacks [] lacks = refl
array_str-Lacks (x ∷ s) (ne, lacks) = ground (arith, array_str-Lacks s lacks)

pub Lacks-array_str : (s : List ℕ) → array_str s ≡ none → Lacks 0 s
unfolding array_str
Lacks-array_str [] h = tt
Lacks-array_str (x ∷ s) h = elim (Bool-cases (x == 0)) [
  | inl e ↦ (let h' : some [] ≡ none = rw e at h in cc)
  | inr e ↦ elim (Option-cases (array_str s)) [
    | inl absent ↦ (ground arith, Lacks-array_str s absent)
    | inr (t, found) ↦ (let h' : some (x ∷ t) ≡ none = rw (e, found) at h in cc)
  ]
]
