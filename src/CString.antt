-- ===== src/CString.antt =====
-- The string functions of C that the programs call, on byte lists. A `char *` into a text is the
-- suffix of the text that it points at, so `colon - start` is a difference of lengths.
pub mod Laws
use proxy.Base.{ℕ, zero, suc, ◌-◌, Bool, true, false, ◌&&◌, ◌||◌, Option, none, some}
use proxy.Base.{List, [], ◌∷◌, ◌++◌, ◌==◌, if◌then◌else◌, leb, length, take, replicate}

-- The text in a NUL-terminated buffer: the bytes before the first NUL.
unfoldable pub c_str : List ℕ → List ℕ
c_str [] = []
c_str (b ∷ bs) = let rest = c_str bs in if b == 0 then [] else b ∷ rest

-- The text in an array, `none` if the array holds no NUL.
unfoldable pub array_str : List ℕ → Option (List ℕ)
array_str [] = none
array_str (b ∷ bs) =
    let rest = array_str bs in
    if b == 0 then some [] else elim rest [ none ↦ none | some s ↦ some (b ∷ s) ]

-- `strncmp(prefix, text, strlen(prefix)) == 0`
unfoldable pub starts_with : List ℕ → List ℕ → Bool
starts_with [] text = true
starts_with (x ∷ xs) [] = false
starts_with (x ∷ xs) (y ∷ ys) = x == y && starts_with xs ys

-- `strstr(text, needle)`, `none` for NULL.
unfoldable pub strstr : List ℕ → List ℕ → Option (List ℕ)
strstr [] needle = if starts_with needle [] then some [] else none
strstr (b ∷ bs) needle =
    let rest = strstr bs needle in if starts_with needle (b ∷ bs) then some (b ∷ bs) else rest

-- `end - start`, for a pointer `end` into the text at `start`.
abbrev pub ptr_diff : List ℕ → List ℕ → ℕ
ptr_diff end start = length start - length end

-- `strncpy(dest, text, n)` into an array of `size` zeros, `none` if it writes past the array.
unfoldable pub strncpy : ℕ → List ℕ → ℕ → Option (List ℕ)
strncpy size text n =
    if leb n size then some (take n text ++ replicate (size - length (take n text)) 0) else none

-- `isspace` in the C locale
unfoldable pub isspace : ℕ → Bool
isspace c = c == b' ' || (leb 9 c && leb c 13)
