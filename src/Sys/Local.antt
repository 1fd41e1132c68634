-- ===== src/Sys/Local.antt =====
-- Code that makes no system call: it neither waits nor ends the program.
use proxy.Base.{ℕ, ◌≢◌, Option, none, some, List, Bool-cases, inl, inr, length, ltb}
use proxy.Sys.{
  Outcome, done, blocked, aborted, undefined, exited, deref, assert_found, and_then, terminate,
}

abbrev pub IsLocal : {A : Type 0} → Outcome A → Type 0
IsLocal (done a) = Unit {0}
IsLocal blocked = ⊥
IsLocal aborted = Unit {0}
IsLocal undefined = Unit {0}
IsLocal (exited n) = ⊥

pub IsLocal-waits : {A : Type 0} (r : Outcome A) → IsLocal r → r ≢ blocked
IsLocal-waits (done a) l = λ e. cc
IsLocal-waits blocked l = absurd l
IsLocal-waits aborted l = λ e. cc
IsLocal-waits undefined l = λ e. cc
IsLocal-waits (exited n) l = absurd l

pub IsLocal-exits : {A : Type 0} (r : Outcome A) (n : ℕ) → IsLocal r → r ≢ exited n
IsLocal-exits (done a) n l = λ e. cc
IsLocal-exits blocked n l = absurd l
IsLocal-exits aborted n l = λ e. cc
IsLocal-exits undefined n l = λ e. cc
IsLocal-exits (exited k) n l = absurd l

pub and_then-IsLocal :
    {A B : Type 0} (r : Outcome A) (f : A → Outcome B)
    → IsLocal r
    → ((a : A) → IsLocal (f a))
    → IsLocal (and_then r f)
and_then-IsLocal (done a) f first second = second a
and_then-IsLocal blocked f first second = absurd first
and_then-IsLocal aborted f first second = tt
and_then-IsLocal undefined f first second = tt
and_then-IsLocal (exited n) f first second = absurd first

pub deref-IsLocal : {A : Type 0} (o : Option A) → IsLocal (deref o)
deref-IsLocal none = tt
deref-IsLocal (some a) = tt

pub assert_found-IsLocal : {A : Type 0} (o : Option A) → IsLocal (assert_found o)
assert_found-IsLocal none = tt
assert_found-IsLocal (some a) = tt

pub terminate-IsLocal : (size : ℕ) (bs : List ℕ) → IsLocal (terminate size bs)
unfolding terminate
terminate-IsLocal size bs = elim (Bool-cases (ltb (length bs) size)) [
  | inl e ↦ rw e tt
  | inr e ↦ rw e tt
]

-- The rules of `IsLocal`, for `search`.
pub ruleset local_rules = (and_then-IsLocal, deref-IsLocal, assert_found-IsLocal, terminate-IsLocal)
