-- ===== src/Server/Lines.antt =====
-- What a line of blocked_list.txt names.
use proxy.Base.{
  ℕ, ◌-◌, ◌≡◌, refl, ◌∙◌, sym, ap, ◌≢◌, ◌⊎◌, inl, inr, false, List, [], ◌∷◌, ◌++◌, arith, length,
  take, drop, ◌==◌, length-append, length-drop, take-append-drop, take-length-append, Bool-cases,
}
use proxy.CString.{c_str}
use proxy.Sys.{done, undefined}
use proxy.Sys.Laws.{done-injective}
use proxy.Server.{strip_line}

-- The text of the line is the host and one byte more, its newline.
abbrev pub Names : List ℕ → List ℕ → Type 0
Names line host = (last : ℕ) × (c_str line ≡ host ++ (last ∷ []))

-- Some line of the file names the host.
abbrev pub OnList : List ℕ → List (List ℕ) → Type 0
OnList host [] = ⊥
OnList host (line ∷ lines) = Names line host ⊎ OnList host lines

nonempty : (t : List ℕ) → t ≢ [] → (length t == 0) ≡ false
nonempty [] h = absurd (h refl)
nonempty (x ∷ t) h = ground arith

pub strip_line_some :
    (line : List ℕ)
    → c_str line ≢ []
    → strip_line line ≡ done (take (length (c_str line) - 1) (c_str line))
unfolding strip_line
strip_line_some line h = rw (nonempty (c_str line) h) refl

pub strip_line_named : (line host : List ℕ) → Names line host → strip_line line ≡ done host
unfolding strip_line
strip_line_named line host (last, text) =
    let size : length (host ++ (last ∷ [])) - 1 ≡ length host =
      omega (arith, length-append host (last ∷ [])) in
    let some_text : (length (host ++ (last ∷ [])) == 0) ≡ false =
      ground (arith, length-append host (last ∷ [])) in
    rw text (rw some_text (rw (size, take-length-append host (last ∷ []))))

singleton : (xs : List ℕ) → length xs ≡ 1 → (last : ℕ) × (xs ≡ last ∷ [])
singleton [] h = absurd (omega arith)
singleton (x ∷ []) h = (x, refl)
singleton (x ∷ (y ∷ xs)) h = absurd (omega arith)

pub strip_line-Names : (line host : List ℕ) → strip_line line ≡ done host → Names line host
unfolding strip_line
strip_line-Names line host h = elim (Bool-cases (length (c_str line) == 0)) [
  | inl e ↦ (let h' : undefined ≡ done host = rw e at h in cc)
  | inr e ↦
      let t = c_str line in
      let h' : done (take (length t - 1) t) ≡ done host = rw e at h in
      let some_text : length t ≢ 0 = λ z. ground arith in
      let (last, d) =
        singleton (drop (length t - 1) t) (length-drop (length t - 1) t ∙ ground arith) in
      (
        last,
        sym (take-append-drop (length t - 1) t)
            ∙ ap (λ s. take (length t - 1) t ++ s) d
            ∙ ap (λ s. s ++ (last ∷ [])) (done-injective h'),
      )
]
