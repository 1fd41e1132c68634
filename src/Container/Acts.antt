-- ===== src/Container/Acts.antt =====
-- What the container programs have the kernel and the shell do, as data, and code that does it in
-- order.
use proxy.Base.{ℕ, List, ◌∷◌}
use proxy.Base.Int.{ℤ}
use proxy.Sys.{Outcome, done, blocked, aborted, undefined, exited}

-- A text of the program, or one that `sprintf` makes with a number between two texts.
pub data Text : Type 0 where
  fixed : List ℕ → Text
  numbered : List ℕ → ℤ → List ℕ → Text

pub data Act : Type 0 where
  ran : Text → Act
  slept : ℕ → Act
  -- A source, a target and a type of file system.
  mounted : Text → Text → List ℕ → Act
  made_dir : Text → Act
  pivoted : Text → Text → Act
  unmounted : List ℕ → Act
  entered : List ℕ → Act
  unshared : Act
  closed_end : Act
  -- The read that waits until nobody holds the write end.
  waited_end : Act
  named_domain : List ℕ → Act
  named_host : List ℕ → Act
  executed : List (List ℕ) → Act
  cloned : ℤ → Act
  waited : ℤ → Act

-- Code that acts, with the acts so far, the newest first.
abbrev pub Run : Type 0 → Type 0
Run A = List Act → Outcome A × List Act

abbrev pub resume : {A B : Type 0} → Outcome A → List Act → (A → Run B) → Outcome B × List Act
resume (done a) acts f = f a acts
resume blocked acts f = (blocked, acts)
resume aborted acts f = (aborted, acts)
resume undefined acts f = (undefined, acts)
resume (exited n) acts f = (exited n, acts)

infixl 5 ◌>>=◌ ◌>>◌
abbrev pub ◌>>=◌ : {A B : Type 0} → Run A → (A → Run B) → Run B
◌>>=◌ m f acts = resume (m acts).0 (m acts).1 f

abbrev pub ◌>>◌ : {B : Type 0} → Run (Unit {0}) → Run B → Run B
m >> k = m >>= λ _. k

abbrev pub act : Act → Run (Unit {0})
act a acts = (done tt, a ∷ acts)

abbrev pub lift : {A : Type 0} → Outcome A → Run A
lift r acts = (r, acts)
