-- ===== src/Container/Cut.antt =====
-- What the signal leaves that comes in the middle of a round of the loop of Containers/container.c.
use proxy.Base.{
  ℕ, zero, suc, ◌-◌, ◌<◌, ◌≡◌, refl, ap, ◌∙◌, sym, ltb, List, [], ◌∷◌, ◌++◌, arith, length, take,
  if◌then◌else◌, str_eq, append-nil, ◌≢◌, ◌==◌, false,
}
use proxy.Base.Int.{ℤ, pos}
use proxy.CString.{c_str}
use proxy.Vector.{IntVector, IsLawful, elements}
use proxy.Container.{
  Call, Session, first_calls, cut_round, copy_root, remove_root, launch, round, reap, handle_sigint,
  begin, numbers, children, waits, max_process,
}
use proxy.Container.Cleanup.{
  Inv, begin-Inv, round-Inv, range, reap-numbers, reap-waits, reap-copied,
}

module _ (V : IntVector) where
  -- The rounds before, each with its line and its pid.
  abbrev pub rounds : List (List ℕ × ℤ) → Session V → Session V
  rounds [] s = s
  rounds ((line, child_pid) ∷ rest) s = rounds rest (round V line child_pid s)

  rounds-Inv :
      (L : IsLawful V) (typed : List (List ℕ × ℤ)) (s : Session V)
      → Inv V s
      → Inv V (rounds typed s)
  rounds-Inv L [] s I = I
  rounds-Inv L ((line, child_pid) ∷ rest) s I =
      rounds-Inv L rest _ (round-Inv V L line child_pid s I)

-- The child that the calls have started: the second of them is `clone`.
abbrev pub cut_child : ℕ → ℤ → List ℤ
cut_child left child_pid = if ltb left 6 then child_pid ∷ [] else []

first_calls-numbers :
    (left id : ℕ) (cmd : List ℕ) (child_pid : ℤ) (calls : List Call)
    → left < 7
    → let all = first_calls left id cmd child_pid ++ calls in
      (numbers copy_root all ≡ numbers copy_root calls ++ (pos id ∷ []))
      × (numbers remove_root all ≡ numbers remove_root calls)
      × (children all ≡ children calls ++ cut_child left child_pid)
      × (waits all ≡ waits calls)
unfolding first_calls launch numbers children waits str_eq
first_calls-numbers zero id cmd child_pid calls cut = (refl, refl, refl, refl)
first_calls-numbers (suc zero) id cmd child_pid calls cut = (refl, refl, refl, refl)
first_calls-numbers (suc (suc zero)) id cmd child_pid calls cut = (refl, refl, refl, refl)
first_calls-numbers (suc (suc (suc zero))) id cmd child_pid calls cut = (refl, refl, refl, refl)
first_calls-numbers (suc (suc (suc (suc zero)))) id cmd child_pid calls cut =
    (refl, refl, refl, refl)
first_calls-numbers (suc (suc (suc (suc (suc zero))))) id cmd child_pid calls cut =
    (refl, refl, refl, refl)
first_calls-numbers (suc (suc (suc (suc (suc (suc zero)))))) id cmd child_pid calls cut =
    (refl, refl, sym (append-nil _), refl)
first_calls-numbers (suc (suc (suc (suc (suc (suc (suc left))))))) id cmd child_pid calls cut =
    absurd (omega (arith, cut))

-- If SIGINT comes behind the first call of a round, whatever the rounds before, and there are not 10
-- containers yet, then the container's directory is left: it is the one that was made and not
-- removed; and if `clone` has run, the container's child is the one that was not waited for.
pub cut_round-leaves :
    (V : IntVector) (L : IsLawful V) (typed : List (List ℕ × ℤ)) (left : ℕ) (line : List ℕ)
    (child_pid : ℤ)
    → left < 7
    → V.size (rounds V typed (begin V)).containers ≢ max_process
    → let s = rounds V typed (begin V) in
      let calls = (cut_round V left line child_pid s).calls in
      (numbers copy_root calls ≡ numbers remove_root calls ++ (pos (V.size s.containers) ∷ []))
      × (children calls ≡ waits calls ++ cut_child left child_pid)
unfolding cut_round handle_sigint
cut_round-leaves V L typed left line child_pid cut room =
    let s = rounds V typed (begin V) in
    let n = V.size s.containers in
    let I = rounds-Inv V L typed (begin V) (begin-Inv V L) in
    let cmd = c_str (take (length line - 1) line) in
    let calls = first_calls left s.container_id cmd child_pid ++ s.calls in
    let not_full : (n == 10) ≡ false = ground (arith, room) in
    let (copied, kept, known, running) =
      first_calls-numbers left s.container_id cmd child_pid s.calls cut in
    let (same_copied, same_known) = reap-copied V s.containers 0 n calls in
    let removed : numbers remove_root (reap V s.containers 0 n calls) ≡ range 0 n =
      reap-numbers V s.containers 0 n calls ∙ ap (λ l. l ++ range 0 n) (kept ∙ I.kept) in
    let waited : waits (reap V s.containers 0 n calls) ≡ elements V s.containers =
      reap-waits V s.containers 0 n calls
      ∙ ap (λ l. l ++ elements V s.containers) (running ∙ I.running) in
    rw not_full (
      same_copied
          ∙ copied
          ∙ ap (λ l. l ++ (pos s.container_id ∷ [])) I.copied
          ∙ ap (λ n. range 0 n ++ (pos n ∷ [])) (sym I.counted)
          ∙ ap (λ l. l ++ (pos n ∷ [])) (sym removed),
      same_known ∙ known ∙ ap (λ l. l ++ cut_child left child_pid) (I.known ∙ sym waited),
    )
