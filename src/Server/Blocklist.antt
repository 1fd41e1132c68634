-- ===== src/Server/Blocklist.antt =====
-- Which hosts are blocked once `blocked_list.txt` has been read.
use proxy.Base.{
  ℕ, ◌-◌, ◌≡◌, refl, ◌∙◌, sym, ap, ◌≢◌, ◌↔◌, ◌⊎◌, inl, inr, true, false, List, [], ◌∷◌, ◌++◌, arith,
  length, take, if◌then◌else◌, ◌==◌, length-take, Bool,
}
use proxy.CString.{c_str}
use proxy.CString.Laws.{Lacks, c_str_self}
use proxy.Sys.{Outcome, done, undefined, blocked, aborted, exited}
use proxy.Sys.Laws.{and_then-done, done-injective}
use proxy.SimpleSet.{SimpleSet, IsLawful, set_true, stored}
use proxy.Server.{strip_line, load, check_blocklist}
use proxy.Server.Lines.{Names, OnList, strip_line_some, strip_line_named, strip_line-Names}

Lacks-snoc : (s : List ℕ) (last : ℕ) → Lacks 0 s → last ≢ 0 → Lacks 0 (s ++ (last ∷ []))
Lacks-snoc [] last l ne = (ne, tt)
Lacks-snoc (x ∷ s) last (p, l) ne = (p, Lacks-snoc s last l ne)

-- Every line has a text.
abbrev pub Readable : List (List ℕ) → Type 0
Readable [] = Unit {0}
Readable (line ∷ lines) = (c_str line ≢ []) × Readable lines

-- The line has a key, for which `P` holds.
abbrev pub KeyOf : Outcome (List ℕ) → (List ℕ → Type 0) → Type 0
KeyOf (done key) P = P key
KeyOf blocked P = ⊥
KeyOf aborted P = ⊥
KeyOf undefined P = ⊥
KeyOf (exited n) P = ⊥

module _ (S : SimpleSet) where
  -- Every `set_add` of the loop stores its key.
  abbrev pub AllStored : S.State → List (List ℕ) → Type 0
  AllStored s [] = Unit {0}
  AllStored s (line ∷ lines) =
      KeyOf (strip_line line)
        λ key. (stored (S.set_add s key).1 ≡ true) × AllStored (S.set_add s key).0 lines

  -- If no line begins with NUL, the loop that fills the set ends with a set.
  pub load-done :
      (s : S.State) (lines : List (List ℕ))
      → Readable lines
      → (s' : S.State) × (load S s lines ≡ done s')
  unfolding load
  load-done s [] h = (s, refl)
  load-done s (line ∷ lines) (h, hs) =
      let key = take (length (c_str line) - 1) (c_str line) in
      let (s', e) = load-done (S.set_add s key).0 lines hs in (s', rw (strip_line_some line h) e)

module _ (S : SimpleSet) (L : IsLawful S) where
  load-contains :
      (host : List ℕ) (s : S.State) (lines : List (List ℕ)) {s' : S.State}
      → load S s lines ≡ done s'
      → S.set_contains s' host ≡ set_true
      → OnList host lines ⊎ (S.set_contains s host ≡ set_true)
  unfolding load
  load-contains host s [] h c = inr (rw (← done-injective h) at c)
  load-contains host s (line ∷ lines) h c =
      let (key, e, h') = and_then-done (strip_line line) _ h in
      step key e (load-contains host (S.set_add s key).0 lines h' c)
    where
      step :
          (key : List ℕ)
          → strip_line line ≡ done key
          → OnList host lines ⊎ (S.set_contains (S.set_add s key).0 host ≡ set_true)
          → OnList host (line ∷ lines) ⊎ (S.set_contains s host ≡ set_true)
      step key e (inl on) = inl (inr on)
      step key e (inr c) = elim ((L.contains-add s key host).0 c) [
        | inl (_, q) ↦ inl (inl (strip_line-Names line host (rw (← q) e)))
        | inr old ↦ inr old
      ]

  contains-load :
      (host : List ℕ) (s : S.State) (lines : List (List ℕ)) {s' : S.State}
      → load S s lines ≡ done s'
      → AllStored S s lines
      → OnList host lines ⊎ (S.set_contains s host ≡ set_true)
      → S.set_contains s' host ≡ set_true
  unfolding load
  contains-load host s [] h all (inl on) = elim on [ ]
  contains-load host s [] h all (inr c) = rw (done-injective h) at c
  contains-load host s (line ∷ lines) h all on =
      let (key, e, h') = and_then-done (strip_line line) _ h in
      let (kept, all') = key_of key e in
      contains-load host (S.set_add s key).0 lines h' all' (step key e kept on)
    where
      key_of :
          (key : List ℕ)
          → strip_line line ≡ done key
          → (stored (S.set_add s key).1 ≡ true) × AllStored S (S.set_add s key).0 lines
      key_of key e = rw e at all

      step :
          (key : List ℕ)
          → strip_line line ≡ done key
          → stored (S.set_add s key).1 ≡ true
          → OnList host (line ∷ lines) ⊎ (S.set_contains s host ≡ set_true)
          → OnList host lines ⊎ (S.set_contains (S.set_add s key).0 host ≡ set_true)
      step key e kept (inl (inl q)) = inr (
          (L.contains-add s key host).1
            (inl (kept, done-injective (sym e ∙ strip_line_named line host q))))
      step key e kept (inl (inr on)) = inl on
      step key e kept (inr c) = inr ((L.contains-add s key host).1 (inr c))

  check_iff :
      (s : S.State) (host : List ℕ)
      → (check_blocklist S s host ≡ 1) ↔ (S.set_contains s host ≡ set_true)
  unfolding check_blocklist
  check_iff s host = (λ h. ground arith, λ h. ground arith)

  -- A host that the set blocks comes from a line of the file, also where a `set_add` has failed.
  pub check_blocklist-OnList :
      (lines : List (List ℕ)) (host : List ℕ) {s : S.State}
      → load S S.set_init lines ≡ done s
      → check_blocklist S s host ≡ 1
      → OnList host lines
  check_blocklist-OnList lines host {s} h c =
      elim (load-contains host S.set_init lines h ((check_iff s host).0 c)) [
        | inl on ↦ on
        | inr old ↦ absurd (L.contains-init host old)
      ]

  -- If the file is loaded without an undefined access and every `set_add` stores its key, a host
  -- is blocked exactly when a line of the file names it: its text is the host and one byte more.
  pub check_blocklist_iff :
      (lines : List (List ℕ)) (host : List ℕ) {s : S.State}
      → load S S.set_init lines ≡ done s
      → AllStored S S.set_init lines
      → (check_blocklist S s host ≡ 1) ↔ OnList host lines
  check_blocklist_iff lines host {s} h all = (
    check_blocklist-OnList lines host h,
    λ on. (check_iff s host).1 (contains-load host S.set_init lines h all (inl on)),
  )

-- A text never comes to itself.
strip_line-ne : (host : List ℕ) → Lacks 0 host → strip_line host ≢ done host
unfolding strip_line
strip_line-ne host lacks h = go (length host == 0) refl (rw (c_str_self host lacks) at h)
  where
    go :
        (b : Bool)
        → (length host == 0) ≡ b
        → (if b then undefined else done (take (length host - 1) host)) ≡ done host
        → ⊥
    go true e h = cc
    go false e h =
        let short : length (take (length host - 1) host) ≡ length host =
          ap length (done-injective h) in
        ground (arith, length-take (length host - 1) host)

OnList-append :
    (host : List ℕ) (lines : List (List ℕ)) (line : List ℕ)
    → OnList host (lines ++ (line ∷ []))
    → OnList host lines ⊎ Names line host
OnList-append host [] line (inl h) = inr h
OnList-append host [] line (inr h) = absurd h
OnList-append host (l ∷ lines) line (inl h) = inl (inl h)
OnList-append host (l ∷ lines) line (inr on) = elim (OnList-append host lines line on) [
  | inl on' ↦ inl (inr on')
  | inr h ↦ inr h
]

-- If the last line of the file has no newline and no NUL, and no line before it names that text,
-- then it is not blocked as a host.
pub check_blocklist-unterminated :
    (S : SimpleSet) (L : IsLawful S) (lines : List (List ℕ)) (host : List ℕ) {s : S.State}
    → Lacks 0 host
    → ¬ OnList host lines
    → load S S.set_init (lines ++ (host ∷ [])) ≡ done s
    → check_blocklist S s host ≢ 1
check_blocklist-unterminated S L lines host lacks absent h c =
    elim (OnList-append host lines host
      (check_blocklist-OnList S L (lines ++ (host ∷ [])) host h c)) [
        | inl on ↦ absent on
        | inr e ↦ strip_line-ne host lacks (strip_line_named host host e)
      ]
