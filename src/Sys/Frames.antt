-- ===== src/Sys/Frames.antt =====
-- Views of the trace that a piece of code leaves as they are.
use proxy.Base.{ℕ, ◌≡◌, refl, ◌≢◌, arith, ◌∙◌, List, [], ◌∷◌, take}
use proxy.Sys.{
  Reply, ok, interrupted, failed, Event, sent, received, World, Outcome, done, blocked, aborted,
  undefined, exited, M, resume, lift, ◌>>=◌, read_script, read, write_script, write, contacts,
  closings, delivered, taken,
}

-- The code `m` does not change the view, whatever the kernel answers.
abbrev pub Keeps : {X A : Type 0} → (List Event → X) → M A → Type 0
Keeps view m = (w : World) → view (m w).1.trace ≡ view w.trace

-- A view that does not look at the bytes that come in, nor at those written to `target`.
pub record IgnoresIo {X : Type 0} (target : ℕ) (view : List Event → X) : Type 0 where
  pub sent_ignored : (bs : List ℕ) (es : List Event) → view (sent target bs ∷ es) ≡ view es
  pub received_ignored :
      (fd : ℕ) (bs : List ℕ) (es : List Event) → view (received fd bs ∷ es) ≡ view es

pub contacts-IgnoresIo : (target : ℕ) → IgnoresIo target contacts
unfolding contacts
contacts-IgnoresIo target = record {
  sent_ignored = λ bs es. refl;
  received_ignored = λ fd bs es. refl;
}

pub closings-IgnoresIo : (fd target : ℕ) → IgnoresIo target (closings fd)
unfolding closings
closings-IgnoresIo fd target = record {
  sent_ignored = λ bs es. refl;
  received_ignored = λ g bs es. refl;
}

pub delivered-IgnoresIo : (fd target : ℕ) → target ≢ fd → IgnoresIo target (delivered fd)
unfolding delivered
delivered-IgnoresIo fd target ne = record {
  sent_ignored = λ bs es. ground arith;
  received_ignored = λ g bs es. refl;
}

-- A property of the final world, where the first part may end the run.
pub resume-world :
    {A B : Type 0} (P : World → Type 0) (r : Outcome A) (w : World) (f : A → M B)
    → P w
    → ((a : A) → P (f a w).1)
    → P (resume r w f).1
resume-world P (done a) w f stop go = go a
resume-world P blocked w f stop go = stop
resume-world P aborted w f stop go = stop
resume-world P undefined w f stop go = stop
resume-world P (exited n) w f stop go = stop

pub >>=-Keeps :
    {X A B : Type 0} (view : List Event → X) (m : M A) (f : A → M B)
    → Keeps view m
    → ((a : A) → Keeps view (f a))
    → Keeps view (m >>= f)
>>=-Keeps view m f first second w =
    resume-world (λ v. view v.trace ≡ view w.trace) (m w).0 (m w).1 f (first w)
      λ a. second a (m w).1 ∙ first w

module _ {X : Type 0} (view : List Event → X) (target : ℕ) (I : IgnoresIo target view) where
  read_script-Keeps : (fd : ℕ) (rs : List (Reply (List ℕ))) → Keeps view (read_script fd rs)
  unfolding read_script
  read_script-Keeps fd [] w = refl
  read_script-Keeps fd (ok bs ∷ rs) w = I.received_ignored fd bs w.trace
  read_script-Keeps fd (interrupted ∷ rs) w = refl
  read_script-Keeps fd (failed ∷ rs) w = refl

  pub read-Keeps : (fd : ℕ) → Keeps view (read fd)
  unfolding read
  read-Keeps fd w = read_script-Keeps fd w.reads w

  write_script-Keeps : (bs : List ℕ) (rs : List (Reply ℕ)) → Keeps view (write_script target bs rs)
  unfolding write_script
  write_script-Keeps bs [] w = refl
  write_script-Keeps bs (ok n ∷ rs) w = I.sent_ignored (take n bs) w.trace
  write_script-Keeps bs (interrupted ∷ rs) w = refl
  write_script-Keeps bs (failed ∷ rs) w = refl

  pub write-Keeps : (bs : List ℕ) → Keeps view (write target bs)
  unfolding write
  write-Keeps bs w = write_script-Keeps bs w.writes w

-- A property of the final world of a run that ends with a result.
pub resume-done :
    {A B : Type 0} (P : World → Type 0) (r : Outcome A) (w : World) (f : A → M B) {b : B}
    → ((a : A) → r ≡ done a → (f a w).0 ≡ done b → P (f a w).1)
    → (resume r w f).0 ≡ done b
    → P (resume r w f).1
resume-done P (done a) w f go h = go a refl h
resume-done P blocked w f go h = cc
resume-done P aborted w f go h = cc
resume-done P undefined w f go h = cc
resume-done P (exited n) w f go h = cc

-- `resume-world`, with the first part's result at hand.
pub resume-world_known :
    {A B : Type 0} (P : World → Type 0) (r : Outcome A) (w : World) (f : A → M B)
    → P w
    → ((a : A) → r ≡ done a → P (f a w).1)
    → P (resume r w f).1
resume-world_known P (done a) w f stop go = go a refl
resume-world_known P blocked w f stop go = stop
resume-world_known P aborted w f stop go = stop
resume-world_known P undefined w f stop go = stop
resume-world_known P (exited n) w f stop go = stop

write_script-taken :
    (fd target : ℕ) (bs : List ℕ) (rs : List (Reply ℕ)) (w : World)
    → (taken fd (write_script target bs rs w).1.trace ≡ taken fd w.trace)
      × ((write_script target bs rs w).1.reads ≡ w.reads)
unfolding write_script taken
write_script-taken fd target bs [] w = (refl, refl)
write_script-taken fd target bs (ok n ∷ rs) w = (refl, refl)
write_script-taken fd target bs (interrupted ∷ rs) w = (refl, refl)
write_script-taken fd target bs (failed ∷ rs) w = (refl, refl)

-- A write takes nothing in.
pub write-taken :
    (fd target : ℕ) (bs : List ℕ) (w : World)
    → (taken fd (write target bs w).1.trace ≡ taken fd w.trace)
      × ((write target bs w).1.reads ≡ w.reads)
unfolding write
write-taken fd target bs w = write_script-taken fd target bs w.writes w

-- Where the predicate holds of the trace, it holds after the code `m`, whatever the kernel answers.
abbrev pub Preserves : {A : Type 0} → (List Event → Type 0) → M A → Type 0
Preserves P m = (w : World) → P w.trace → P (m w).1.trace

write_script-Preserves :
    (P : List Event → Type 0) (fd : ℕ)
    → ((bs : List ℕ) (es : List Event) → P es → P (sent fd bs ∷ es))
    → (bs : List ℕ) (rs : List (Reply ℕ)) → Preserves P (write_script fd bs rs)
unfolding write_script
write_script-Preserves P fd keep bs [] w h = h
write_script-Preserves P fd keep bs (ok n ∷ rs) w h = keep (take n bs) w.trace h
write_script-Preserves P fd keep bs (interrupted ∷ rs) w h = h
write_script-Preserves P fd keep bs (failed ∷ rs) w h = h

pub write-Preserves :
    (P : List Event → Type 0) (fd : ℕ)
    → ((bs : List ℕ) (es : List Event) → P es → P (sent fd bs ∷ es))
    → (bs : List ℕ) → Preserves P (write fd bs)
unfolding write
write-Preserves P fd keep bs w h = write_script-Preserves P fd keep bs w.writes w h

read_script-Preserves :
    (P : List Event → Type 0) (fd : ℕ)
    → ((bs : List ℕ) (es : List Event) → P es → P (received fd bs ∷ es))
    → (rs : List (Reply (List ℕ))) → Preserves P (read_script fd rs)
unfolding read_script
read_script-Preserves P fd keep [] w h = h
read_script-Preserves P fd keep (ok bs ∷ rs) w h = keep bs w.trace h
read_script-Preserves P fd keep (interrupted ∷ rs) w h = h
read_script-Preserves P fd keep (failed ∷ rs) w h = h

pub read-Preserves :
    (P : List Event → Type 0) (fd : ℕ)
    → ((bs : List ℕ) (es : List Event) → P es → P (received fd bs ∷ es))
    → Preserves P (read fd)
unfolding read
read-Preserves P fd keep w h = read_script-Preserves P fd keep w.reads w h

pub >>=-Preserves :
    {A B : Type 0} (P : List Event → Type 0) (m : M A) (f : A → M B)
    → Preserves P m
    → ((a : A) → Preserves P (f a))
    → Preserves P (m >>= f)
>>=-Preserves P m f first second w h =
    resume-world (λ v. P v.trace) (m w).0 (m w).1 f (first w h) λ a. second a (m w).1 (first w h)

-- Code with no system call.
pub lift-Preserves : {A : Type 0} (P : List Event → Type 0) (r : Outcome A) → Preserves P (lift r)
lift-Preserves P r w h = h

-- The rules of `Preserves` that hold for each property, for `search`.
pub ruleset preserves_rules = (>>=-Preserves, lift-Preserves)
