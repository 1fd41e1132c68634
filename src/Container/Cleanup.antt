-- ===== src/Container/Cleanup.antt =====
-- What is left of the containers when the program of Containers/container.c ends.
use proxy.Base.{
  ℕ, zero, suc, ◌+◌, ◌≤◌, ◌≡◌, ◌==◌, refl, sym, ap, ◌∙◌, inl, inr, List, [], ◌∷◌, ◌++◌, arith,
  length, append_assoc, append-nil, str_eq, Bool-cases,
}
use proxy.Base.Int.{ℤ, pos}
use proxy.Sys.{exited}
use proxy.Vector.{
  IntVector, IsLawful, entries, elements, length-entries, elements-push_back, elements-create,
}
use proxy.Container.{
  Call, Session, copy_root, remove_root, launch, round, reap, handle_sigint, Input, typed,
  end_of_input, sigint, cut, begin, main_loop, numbers, children, waits,
}

-- The `n` numbers from `i` on.
abbrev pub range : ℕ → ℕ → List ℤ
range i zero = []
range i (suc n) = pos i ∷ range (suc i) n

pub range-snoc : (i n : ℕ) → range i (suc n) ≡ range i n ++ (pos (i + n) ∷ [])
range-snoc i zero = ap (λ k. pos k ∷ []) (omega arith)
range-snoc i (suc n) =
    ap (λ l. pos i ∷ l)
      (range-snoc (suc i) n ∙ ap (λ k. range (suc i) n ++ (pos k ∷ [])) (omega arith))

range-grown : (n : ℕ) → range 0 n ++ (pos n ∷ []) ≡ range 0 (suc n)
range-grown n =
    ap (λ k. range 0 n ++ (pos k ∷ [])) (let e : n ≡ 0 + n = omega arith in e)
    ∙ sym (range-snoc 0 n)

-- The loops that look at the vector and leave the rest.
module _ (V : IntVector) (containers : V.State) where
  pub reap-numbers :
      (i left : ℕ) (calls : List Call)
      → numbers remove_root (reap V containers i left calls)
        ≡ numbers remove_root calls ++ range i left
  unfolding reap numbers str_eq
  reap-numbers i zero calls = sym (append-nil _)
  reap-numbers i (suc left) calls =
      reap-numbers (suc i) left _ ∙ append_assoc (numbers remove_root calls) (pos i ∷ []) _

  pub reap-waits :
      (i left : ℕ) (calls : List Call)
      → waits (reap V containers i left calls) ≡ waits calls ++ entries V containers i left
  unfolding reap waits
  reap-waits i zero calls = sym (append-nil _)
  reap-waits i (suc left) calls =
      reap-waits (suc i) left _ ∙ append_assoc (waits calls) (V.get containers i ∷ []) _

  pub reap-copied :
      (i left : ℕ) (calls : List Call)
      → (numbers copy_root (reap V containers i left calls) ≡ numbers copy_root calls)
        × (children (reap V containers i left calls) ≡ children calls)
  unfolding reap numbers children str_eq
  reap-copied i zero calls = (refl, refl)
  reap-copied i (suc left) calls = reap-copied (suc i) left _

module _ (V : IntVector) where
  -- The loop's invariant: container `i` has the directory `i`, and nothing was cleaned up.
  pub record Inv (s : Session V) : Type 0 where
    pub counted : V.size s.containers ≡ s.container_id
    pub bounded : s.container_id ≤ 10
    pub copied : numbers copy_root s.calls ≡ range 0 s.container_id
    pub kept : numbers remove_root s.calls ≡ []
    pub known : children s.calls ≡ elements V s.containers
    pub running : waits s.calls ≡ []

  abbrev pub Clean : Session V → Type 0
  Clean s =
      (numbers remove_root s.calls ≡ numbers copy_root s.calls)
      × (waits s.calls ≡ children s.calls)
      × (length (children s.calls) ≤ 10)

-- The signal comes while `main` waits for a line, and in the middle of no round.
abbrev pub AtPrompt : List Input → Type 0
AtPrompt [] = Unit {0}
AtPrompt (typed line child_pid ∷ inputs) = AtPrompt inputs
AtPrompt (end_of_input ∷ inputs) = AtPrompt inputs
AtPrompt (sigint ∷ inputs) = AtPrompt inputs
AtPrompt (cut left line child_pid ∷ inputs) = ⊥

module _ (V : IntVector) (L : IsLawful V) where
  pub begin-Inv : Inv V (begin V)
  unfolding numbers children waits
  begin-Inv = record {
    counted = L.size-create;
    bounded = omega arith;
    copied = refl;
    kept = refl;
    known = sym (elements-create V L);
    running = refl;
  }

  pub round-Inv :
      (line : List ℕ) (child_pid : ℤ) (s : Session V) → Inv V s → Inv V (round V line child_pid s)
  unfolding round launch numbers children waits str_eq
  round-Inv line child_pid s I = elim (Bool-cases (V.size s.containers == 10)) [
    | inl full ↦ rw full I
    | inr room ↦ rw room (
        let c : V.size s.containers ≡ s.container_id = I.counted in
        let b : s.container_id ≤ 10 = I.bounded in
        let counted : V.size s.containers + 1 ≡ suc s.container_id = omega arith in
        record {
          counted = L.size-push_back s.containers child_pid ∙ counted;
          bounded = ground arith;
          copied = ap (λ l. l ++ (pos s.container_id ∷ [])) I.copied ∙ range-grown s.container_id;
          kept = I.kept;
          known =
              ap (λ l. l ++ (child_pid ∷ [])) I.known
              ∙ sym (elements-push_back V L s.containers child_pid);
          running = I.running;
        })
  ]

  handle_sigint-Clean : (s : Session V) → Inv V s → Clean V (handle_sigint V s)
  unfolding handle_sigint
  handle_sigint-Clean s I =
      let n = V.size s.containers in
      let (copied, known) = reap-copied V s.containers 0 n s.calls in
      let size : length (elements V s.containers) ≡ n = length-entries V s.containers 0 n in
      (
        reap-numbers V s.containers 0 n s.calls
            ∙ ap (λ l. l ++ range 0 n) I.kept
            ∙ ap (range 0) I.counted
            ∙ sym (copied ∙ I.copied),
        reap-waits V s.containers 0 n s.calls
            ∙ ap (λ l. l ++ elements V s.containers) I.running
            ∙ sym (known ∙ I.known),
        rw (known ∙ I.known) (omega (arith, size, I.counted, I.bounded)),
      )

  main_loop-Clean :
      (inputs : List Input) (s : Session V)
      → Inv V s
      → AtPrompt inputs
      → (main_loop V inputs s).0 ≡ exited 0
      → Clean V (main_loop V inputs s).1
  unfolding main_loop
  main_loop-Clean [] s I p h = cc
  main_loop-Clean (typed line child_pid ∷ inputs) s I p h =
      main_loop-Clean inputs _ (round-Inv line child_pid s I) p h
  main_loop-Clean (end_of_input ∷ inputs) s I p h = cc
  main_loop-Clean (sigint ∷ inputs) s I p h = handle_sigint-Clean s I
  main_loop-Clean (cut left line child_pid ∷ inputs) s I p h = absurd p

  -- If SIGINT comes only while `main` waits for a line, and the program exits, then it has removed
  -- the directories that it made, one for each container, in order, has waited for each child that
  -- it started, and has started at most 10.
  pub main_loop-begin :
      (inputs : List Input)
      → AtPrompt inputs
      → (main_loop V inputs (begin V)).0 ≡ exited 0
      → let calls = (main_loop V inputs (begin V)).1.calls in
        (numbers remove_root calls ≡ numbers copy_root calls)
        × (waits calls ≡ children calls)
        × (length (children calls) ≤ 10)
  main_loop-begin inputs p h = main_loop-Clean inputs (begin V) begin-Inv p h
