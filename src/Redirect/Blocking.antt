-- ===== src/Redirect/Blocking.antt =====
-- Which hosts the block list of redirect.c stops.
use proxy.Base.{
  ℕ, ◌+◌, ◌≤◌, ◌≡◌, refl, sym, ap, subst, ◌∙◌, ◌↔◌, ◌⊎◌, inl, inr, true, false, ◌||◌, Bool, some,
  List, [], ◌∷◌, ◌++◌, arith, length, length-append, ltb, Bool-cases,
}
use proxy.CString.{starts_with}
use proxy.CString.Laws.{c_str_self}
use proxy.Sys.{Outcome, done, undefined}
use proxy.Sys.Laws.{and_then-done, done-injective}
use proxy.Server.{strip_line}
use proxy.Server.Lines.{Names, strip_line_named, strip_line-Names}
use proxy.Redirect.{push_entry, load_entries, load, is_blocked}

-- Some line of the file names a prefix of the host.
abbrev pub Prefixed : List ℕ → List (List ℕ) → Type 0
Prefixed host [] = ⊥
Prefixed host (line ∷ lines) =
    ((entry : List ℕ) × Names line entry × (starts_with entry host ≡ true)) ⊎ Prefixed host lines

push_entry-done :
    (arr : List (List ℕ)) (entry : List ℕ) {arr' : List (List ℕ)}
    → push_entry arr entry ≡ done arr'
    → (length arr + 1 ≤ 100) × (arr' ≡ arr ++ (entry ∷ []))
unfolding push_entry
push_entry-done arr entry {arr'} h = elim (Bool-cases (ltb (length arr) 100)) [
  | inl e ↦ (ground arith, sym (done-injective (rw e at h)))
  | inr e ↦ absurd (full (rw e at h))
]
  where
    full : ◌≡◌ {A = Outcome (List (List ℕ))} undefined (done arr') → ⊥
    full q = cc

is_blocked-append :
    (arr : List (List ℕ)) (entry host : List ℕ)
    → is_blocked (arr ++ (entry ∷ [])) host ≡ (is_blocked arr host || starts_with entry host)
unfolding is_blocked
is_blocked-append [] entry host = ground arith
is_blocked-append (e ∷ arr) entry host = ground (arith, is_blocked-append arr entry host)

-- What the loop has done from a list of entries on.
record Loaded (arr : List (List ℕ)) (lines arr' : List (List ℕ)) : Type 0 where
  count : length arr' ≡ length arr + length lines
  bound : (length arr ≤ 100) → length arr' ≤ 100
  hits :
      (host : List ℕ)
      → (is_blocked arr' host ≡ true) ↔ ((is_blocked arr host ≡ true) ⊎ Prefixed host lines)

load_entries-Loaded :
    (arr lines : List (List ℕ)) {arr' : List (List ℕ)}
    → load_entries arr lines ≡ done arr'
    → Loaded arr lines arr'
unfolding load_entries
load_entries-Loaded arr [] {arr'} h = subst (Loaded arr []) (done-injective h) (record {
  count = omega arith;
  bound = λ b. b;
  hits = λ host. (λ e. inl e, elim [ inl e ↦ e | inr p ↦ absurd p ]);
})
load_entries-Loaded arr (line ∷ lines) {arr'} h =
    let (entry, stripped, h₁) = and_then-done (strip_line line) _ h in
    let (arr₁, pushed, h₂) = and_then-done (push_entry arr entry) _ h₁ in
    let (room, same) = push_entry-done arr entry pushed in
    step entry stripped arr₁ room same (load_entries-Loaded arr₁ lines h₂)
  where
    step :
        (entry : List ℕ)
        → strip_line line ≡ done entry
        → (arr₁ : List (List ℕ)) → length arr + 1 ≤ 100
        → arr₁ ≡ arr ++ (entry ∷ [])
        → Loaded arr₁ lines arr'
        → Loaded arr (line ∷ lines) arr'
    step entry stripped arr₁ room same l = record {
      count = omega (arith, l.count, ap length same, length-append arr (entry ∷ []));
      bound = λ b. l.bound (omega (arith, room, ap length same, length-append arr (entry ∷ [])));
      hits = λ host. (
        λ e.
            forth host (l.hits host)
              (ap (λ a. is_blocked a host) same ∙ is_blocked-append arr entry host) e,
        λ p.
            (l.hits host).1
              (back host (ap (λ a. is_blocked a host) same ∙ is_blocked-append arr entry host) p),
      );
    }
      where
        or-split : (b c : Bool) → (b || c) ≡ true → (b ≡ true) ⊎ (c ≡ true)
        or-split true c e = inl refl
        or-split false c e = inr e

        forth :
            (host : List ℕ)
            → (is_blocked arr' host ≡ true) ↔ ((is_blocked arr₁ host ≡ true) ⊎ Prefixed host lines)
            → is_blocked arr₁ host ≡ (is_blocked arr host || starts_with entry host)
            → is_blocked arr' host ≡ true
            → (is_blocked arr host ≡ true) ⊎ Prefixed host (line ∷ lines)
        forth host hits split e = elim (hits.0 e) [
          | inr p ↦ inr (inr p)
          | inl b ↦ elim (or-split (is_blocked arr host) (starts_with entry host) (sym split ∙ b)) [
            | inl old ↦ inl old
            | inr new ↦ inr (inl (entry, strip_line-Names line entry stripped, new))
          ]
        ]

        back :
            (host : List ℕ)
            → is_blocked arr₁ host ≡ (is_blocked arr host || starts_with entry host)
            → (is_blocked arr host ≡ true) ⊎ Prefixed host (line ∷ lines)
            → (is_blocked arr₁ host ≡ true) ⊎ Prefixed host lines
        back host split (inl old) = inl (ground arith)
        back host split (inr (inl (entry', e, starts))) =
            let same' : entry' ≡ entry =
              done-injective (sym (strip_line_named line entry' e) ∙ stripped) in
            let starts' : starts_with entry host ≡ true =
              subst (λ x. starts_with x host ≡ true) same' starts in
            inl (ground arith)
        back host split (inr (inr p)) = inr p

-- If the file is loaded without an undefined access, it has at most 100 lines, and a host is
-- blocked exactly if some line names a prefix of it.
pub load_blocks :
    (lines arr : List (List ℕ)) (host : List ℕ)
    → load (some lines) ≡ done arr
    → (length lines ≤ 100) × ((is_blocked arr host ≡ true) ↔ Prefixed host lines)
unfolding load is_blocked
load_blocks lines arr host h =
    let l = load_entries-Loaded [] lines h in
    (
      omega (arith, l.count, l.bound (omega arith)),
      (λ e. onto ((l.hits host).0 e), λ p. (l.hits host).1 (inr p)),
    )
  where
    onto : (is_blocked [] host ≡ true) ⊎ Prefixed host lines → Prefixed host lines
    onto (inl e) = cc
    onto (inr p) = p

-- If a file with a blank line is loaded without an undefined access, every host is blocked.
pub load_blank :
    (before after arr : List (List ℕ)) (host : List ℕ)
    → load (some (before ++ ((10 ∷ []) ∷ after))) ≡ done arr
    → is_blocked arr host ≡ true
unfolding starts_with
load_blank before after arr host h =
    (load_blocks (before ++ ((10 ∷ []) ∷ after)) arr host h).1.1 (blank before)
  where
    blank : (before : List (List ℕ)) → Prefixed host (before ++ ((10 ∷ []) ∷ after))
    blank [] = inl ([], (10, c_str_self (10 ∷ []) ((λ e. ground arith), tt)), refl)
    blank (l ∷ before) = inr (blank before)
