-- ===== src/Sys/Laws.antt =====
-- Inversion of a chain of outcomes, one write, and what one event adds to the views of a trace.
use proxy.Base.{
  ℕ, List, [], ◌∷◌, ◌⊎◌, inl, inr, take, ap, arith, ◌++◌, ◌≡◌, refl, Option, none, some, ◌≢◌,
}
use proxy.Sys.{
  Outcome, done, blocked, aborted, undefined, exited, deref, assert_found, and_then, write,
  write_script, read, read_script, World, Reply, ok, interrupted, failed, M, resume, sent, received,
  Event, delivered, taken, take_reply,
}

pub and_then-done :
    {A B : Type 0} (r : Outcome A) (f : A → Outcome B) {b : B}
    → and_then r f ≡ done b
    → (a : A) × (r ≡ done a) × (f a ≡ done b)
and_then-done (done a) f h = (a, refl, h)
and_then-done blocked f h = cc
and_then-done aborted f h = cc
and_then-done undefined f h = cc
and_then-done (exited n) f h = cc

pub done-injective : {A : Type 0} {a b : A} → done a ≡ done b → a ≡ b
done-injective h = cc

pub deref-done : {A : Type 0} (o : Option A) {a : A} → deref o ≡ done a → o ≡ some a
deref-done none h = cc
deref-done (some x) h = cc

pub assert_found-done : {A : Type 0} (o : Option A) {a : A} → assert_found o ≡ done a → o ≡ some a
assert_found-done none h = cc
assert_found-done (some x) h = cc

pub write_ok :
    (fd : ℕ) (bs : List ℕ) (w : World) {n : ℕ} {ws : List (Reply ℕ)}
    → w.writes ≡ ok n ∷ ws
    → write fd bs w ≡ (done (ok n), record w { writes = ws; trace = sent fd (take n bs) ∷ w.trace })
unfolding write write_script
write_ok fd bs w h = ap (λ rs. write_script fd bs rs w) h

pub delivered_sent :
    (fd : ℕ) (bs : List ℕ) (es : List Event)
    → delivered fd (sent fd bs ∷ es) ≡ delivered fd es ++ bs
unfolding delivered
delivered_sent fd bs es = ground arith

pub delivered_received :
    (fd g : ℕ) (bs : List ℕ) (es : List Event) → delivered fd (received g bs ∷ es) ≡ delivered fd es
unfolding delivered
delivered_received fd g bs es = refl

pub taken_received :
    (fd : ℕ) (bs : List ℕ) (es : List Event) → taken fd (received fd bs ∷ es) ≡ taken fd es ++ bs
unfolding taken
taken_received fd bs es = ground arith

pub taken_sent :
    (fd g : ℕ) (bs : List ℕ) (es : List Event) → taken fd (sent g bs ∷ es) ≡ taken fd es
unfolding taken
taken_sent fd g bs es = refl

pub read_ok :
    (fd : ℕ) (w : World) {bs : List ℕ} {rs : List (Reply (List ℕ))}
    → w.reads ≡ ok bs ∷ rs
    → read fd w ≡ (done (ok bs), record w { reads = rs; trace = received fd bs ∷ w.trace })
unfolding read read_script
read_ok fd w h = ap (λ rs. read_script fd rs w) h

resume-write_script :
    {B : Type 0} (P : Outcome B × World → Type 0) (fd : ℕ) (bs : List ℕ) (rs : List (Reply ℕ))
    (w : World) (f : Reply ℕ → M B)
    → ((v : World) → P (blocked, v))
    → ((a : Reply ℕ) (v : World) → P (f a v))
    → P (resume (write_script fd bs rs w).0 (write_script fd bs rs w).1 f)
unfolding write_script
resume-write_script P fd bs [] w f stop go = stop w
resume-write_script P fd bs (ok n ∷ rs) w f stop go = go (ok n) _
resume-write_script P fd bs (interrupted ∷ rs) w f stop go = go interrupted _
resume-write_script P fd bs (failed ∷ rs) w f stop go = go failed _

-- A `write` waits or returns.
pub resume-write :
    {B : Type 0} (P : Outcome B × World → Type 0) (fd : ℕ) (bs : List ℕ) (w : World)
    (f : Reply ℕ → M B)
    → ((v : World) → P (blocked, v))
    → ((a : Reply ℕ) (v : World) → P (f a v))
    → P (resume (write fd bs w).0 (write fd bs w).1 f)
unfolding write
resume-write P fd bs w f stop go = resume-write_script P fd bs w.writes w f stop go

read_script-outcome :
    (fd : ℕ) (rs : List (Reply (List ℕ))) (w : World)
    → ((read_script fd rs w).0 ≡ blocked)
      ⊎ ((r : Reply (List ℕ)) × ((read_script fd rs w).0 ≡ done r))
unfolding read_script
read_script-outcome fd [] w = inl refl
read_script-outcome fd (ok bs ∷ rs) w = inr (ok bs, refl)
read_script-outcome fd (interrupted ∷ rs) w = inr (interrupted, refl)
read_script-outcome fd (failed ∷ rs) w = inr (failed, refl)

-- A `read` waits or returns.
pub read-outcome :
    (fd : ℕ) (w : World)
    → ((read fd w).0 ≡ blocked) ⊎ ((r : Reply (List ℕ)) × ((read fd w).0 ≡ done r))
unfolding read
read-outcome fd w = read_script-outcome fd w.reads w

resume-read_script :
    {B : Type 0} (P : Outcome B × World → Type 0) (fd : ℕ) (rs : List (Reply (List ℕ))) (w : World)
    (f : Reply (List ℕ) → M B)
    → ((v : World) → v.trace ≡ w.trace → P (blocked, v))
    → ((bs : List ℕ) (v : World) → v.trace ≡ received fd bs ∷ w.trace → P (f (ok bs) v))
    → ((v : World) → v.trace ≡ w.trace → P (f interrupted v) × P (f failed v))
    → P (resume (read_script fd rs w).0 (read_script fd rs w).1 f)
unfolding read_script
resume-read_script P fd [] w f stop go fail = stop w refl
resume-read_script P fd (ok bs ∷ rs) w f stop go fail = go bs _ refl
resume-read_script P fd (interrupted ∷ rs) w f stop go fail = (fail _ refl).0
resume-read_script P fd (failed ∷ rs) w f stop go fail = (fail _ refl).1

-- A `read` waits, returns bytes or fails.
pub resume-read :
    {B : Type 0} (P : Outcome B × World → Type 0) (fd : ℕ) (w : World) (f : Reply (List ℕ) → M B)
    → ((v : World) → v.trace ≡ w.trace → P (blocked, v))
    → ((bs : List ℕ) (v : World) → v.trace ≡ received fd bs ∷ w.trace → P (f (ok bs) v))
    → ((v : World) → v.trace ≡ w.trace → P (f interrupted v) × P (f failed v))
    → P (resume (read fd w).0 (read fd w).1 f)
unfolding read
resume-read P fd w f stop go fail = resume-read_script P fd w.reads w f stop go fail

pub read_reply :
    (fd : ℕ) (w : World) {r : Reply (List ℕ)} {rs : List (Reply (List ℕ))}
    → w.reads ≡ r ∷ rs
    → read fd w ≡ take_reply fd r (record w { reads = rs })
unfolding read read_script
read_reply fd w h = ap (λ rs. read_script fd rs w) h

-- A run does not wait if neither of its parts does.
pub resume-ends :
    {A B : Type 0} (r : Outcome A) (w : World) (f : A → M B)
    → r ≢ blocked
    → ((a : A) → r ≡ done a → (f a w).0 ≢ blocked)
    → (resume r w f).0 ≢ blocked
resume-ends (done a) w f first second = second a refl
resume-ends blocked w f first second = absurd (first refl)
resume-ends aborted w f first second = λ e. cc
resume-ends undefined w f first second = λ e. cc
resume-ends (exited n) w f first second = λ e. cc

pub resume-result :
    {A B : Type 0} (r : Outcome A) (w : World) (f : A → M B) {b : B}
    → (resume r w f).0 ≡ done b
    → (a : A) × (r ≡ done a) × ((f a w).0 ≡ done b)
resume-result (done a) w f h = (a, refl, h)
resume-result blocked w f h = cc
resume-result aborted w f h = cc
resume-result undefined w f h = cc
resume-result (exited n) w f h = cc

-- Another peer is given nothing of what one peer is sent.
pub delivered_other :
    (fd g : ℕ) (bs : List ℕ) (es : List Event)
    → g ≢ fd
    → delivered fd (sent g bs ∷ es) ≡ delivered fd es
unfolding delivered
delivered_other fd g bs es ne = ground arith
