-- ===== src/Sys/Answers.antt =====
-- A `write` that the kernel answers.
use proxy.Base.{ℕ, ◌+◌, ◌≤◌, arith, List, [], ◌∷◌}
use proxy.Sys.{Reply, ok, interrupted, failed, World, Outcome, M, resume, write, write_script}

-- How many of the replies are not EINTR.
unfoldable pub answers : List (Reply ℕ) → ℕ
answers [] = 0
answers (ok n ∷ rs) = 1 + answers rs
answers (interrupted ∷ rs) = answers rs
answers (failed ∷ rs) = 1 + answers rs

resume-write_script_answered :
    {B : Type 0} (P : Outcome B × World → Type 0) (fd : ℕ) (bs : List ℕ) (rs : List (Reply ℕ))
    (w : World) (f : Reply ℕ → M B)
    → 1 ≤ answers rs
    → ((a : Reply ℕ) (v : World) → answers rs ≤ answers v.writes + 1 → P (f a v))
    → P (resume (write_script fd bs rs w).0 (write_script fd bs rs w).1 f)
unfolding write_script answers
resume-write_script_answered P fd bs [] w f some_left go = absurd (omega arith)
resume-write_script_answered P fd bs (ok n ∷ rs) w f some_left go = go (ok n) _ (omega arith)
resume-write_script_answered P fd bs (interrupted ∷ rs) w f some_left go =
    go interrupted _ (omega arith)
resume-write_script_answered P fd bs (failed ∷ rs) w f some_left go = go failed _ (omega arith)

-- A `write` returns while an answer is left, and uses up one at most.
pub resume-write_answered :
    {B : Type 0} (P : Outcome B × World → Type 0) (fd : ℕ) (bs : List ℕ) (w : World)
    (f : Reply ℕ → M B)
    → 1 ≤ answers w.writes
    → ((a : Reply ℕ) (v : World) → answers w.writes ≤ answers v.writes + 1 → P (f a v))
    → P (resume (write fd bs w).0 (write fd bs w).1 f)
unfolding write
resume-write_answered P fd bs w f some_left go =
    resume-write_script_answered P fd bs w.writes w f some_left go
