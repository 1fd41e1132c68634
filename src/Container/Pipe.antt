-- ===== src/Container/Pipe.antt =====
-- The pipe of Containers/container.c by which the loop lets a child go on, once it has moved the
-- child's network interface. The one pipe serves all rounds. SIGINT ends the program, and with it the
-- loop's hold on the pipe.
use proxy.Base.{
  ℕ, zero, subst, Bool-cases, suc, ◌<◌, ◌≡◌, ◌≢◌, ◌⊎◌, refl, inl, inr, Bool, true, false, List, [],
  ◌∷◌, arith,
}
use proxy.Container.{max_process}

-- Where a round of the loop is: before `clone`, before veth1 is moved to the child, and before
-- `close(checkpoint[1])`.
pub data Stage : Type 0 where
  typing linking closing : Stage

pub record Sync : Type 0 where
  -- Whether the program has not exited yet.
  pub running : Bool
  -- Whether the program still holds the write end.
  pub is_open : Bool
  -- `containerId` at the round's start, which is the id of the round's child.
  pub current : ℕ
  pub stage : Stage
  -- The children that have gone on to bring veth1 up.
  pub up : List ℕ

abbrev pub piped : Sync
piped = record { running = true; is_open = true; current = 0; stage = Stage.typing; up = [] }

-- The child has been started.
abbrev pub Started : Sync → ℕ → Type 0
Started s k = (k < s.current) ⊎ ((k ≡ s.current) × (s.stage ≢ Stage.typing))

-- The child has its interface.
abbrev pub Linked : Sync → ℕ → Type 0
Linked s k = (k < s.current) ⊎ ((k ≡ s.current) × (s.stage ≡ Stage.closing))

-- A step of the loop, or of a child whose `read` returns because nobody holds the write end. A child
-- has closed its own copy before that. `interrupt` is the `exit` of `handleSigint`, wherever the loop
-- is.
pub data Step : Sync → Sync → Type 0 where
  clone :
      (s : Sync)
      → s.running ≡ true
      → s.stage ≡ Stage.typing
      → s.current < max_process
      → Step s (record s { stage = Stage.linking })
  link :
      (s : Sync)
      → s.running ≡ true
      → s.stage ≡ Stage.linking
      → Step s (record s { stage = Stage.closing })
  close :
      (s : Sync)
      → s.running ≡ true
      → s.stage ≡ Stage.closing
      → Step s (record s { is_open = false; current = suc s.current; stage = Stage.typing })
  interrupt : (s : Sync) → s.running ≡ true → Step s (record s { running = false; is_open = false })
  go_on : (s : Sync) (k : ℕ) → s.is_open ≡ false → Started s k → Step s (record s { up = k ∷ s.up })

pub data Reach (s : Sync) : Sync → Type 0 where
  here : Reach s s
  next : {t u : Sync} → Reach s t → Step t u → Reach s u

abbrev pub Among : ℕ → List ℕ → Type 0
Among k [] = ⊥
Among k (x ∷ xs) = (k ≡ x) ⊎ Among k xs

-- The loop gives up the write end with its first round, or the program exits in it, and no child goes
-- on before.
record Inv (s : Sync) : Type 0 where
  released : (s.is_open ≡ false) → (0 < s.current) ⊎ ((s.running ≡ false) × (s.current ≡ 0))
  waiting : (s.is_open ≡ true) → s.up ≡ []

Step-Inv : {s t : Sync} → Step s t → Inv s → Inv t
Step-Inv (clone s r e l) I = record { released = I.released; waiting = I.waiting }
Step-Inv (link s r e) I = record { released = I.released; waiting = I.waiting }
Step-Inv (close s r e) I = record { released = λ h. inl (omega arith); waiting = λ h. cc }
Step-Inv (interrupt s r) I = record { released = λ h. first_or_later s.current; waiting = λ h. cc }
  where
    first_or_later : (n : ℕ) → (0 < n) ⊎ ((false ≡ false) × (n ≡ 0))
    first_or_later zero = inr (refl, refl)
    first_or_later (suc n) = inl (omega arith)
Step-Inv (go_on s k e st) I = record { released = I.released; waiting = λ h. cc }

Reach-Inv : {s : Sync} → Reach piped s → Inv s
Reach-Inv here = record { released = λ h. cc; waiting = λ h. refl }
Reach-Inv (next r st) = Step-Inv st (Reach-Inv r)

-- A first child that goes on has its interface, or SIGINT has ended the program in its first round.
pub first_waits :
    {s : Sync} → Reach piped s → Among 0 s.up → Linked s 0 ⊎ ((s.running ≡ false) × (s.current ≡ 0))
first_waits {s} r up = elim (Bool-cases s.is_open) [
  | inl e ↦ absurd (subst (Among 0) ((Reach-Inv r).waiting e) up)
  | inr e ↦ elim ((Reach-Inv r).released e) [ inl later ↦ inl (inl later) | inr ended ↦ inr ended ]
]

-- The loop at the start of round `k`, when no child has gone on yet.
abbrev pub at_round : ℕ → Sync
at_round k = record { running = true; is_open = false; current = k; stage = Stage.typing; up = [] }

at_round-Reach : (k : ℕ) → k < max_process → Reach piped (at_round (suc k))
at_round-Reach zero l =
    next (next (next here (clone piped refl refl (omega arith))) (link _ refl refl))
      (close _ refl refl)
at_round-Reach (suc k) l =
    next
      (next (next (at_round-Reach k (omega arith)) (clone (at_round (suc k)) refl refl l))
        (link _ refl refl))
      (close _ refl refl)

-- Every later child may go on before it has its interface: the loop has given up the write end for
-- good, so the child's read waits for nothing.
pub later_early :
    (k : ℕ)
    → suc k < max_process
    → (s : Sync) × Reach piped s × Among (suc k) s.up × (¬ Linked s (suc k))
later_early k l =
    let cloned = record (at_round (suc k)) { stage = Stage.linking } in
    (
      record cloned { up = suc k ∷ [] },
      next (next (at_round-Reach k (omega arith)) (clone (at_round (suc k)) refl refl l))
          (go_on cloned (suc k) refl (inr (refl, λ e. cc))),
      inl refl,
      elim [ inl h ↦ omega arith | inr (e, h) ↦ cc ],
    )
