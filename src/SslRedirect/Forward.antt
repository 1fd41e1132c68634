-- ===== src/SslRedirect/Forward.antt =====
-- What the loops of ssl-redirect.c pass on, and that they never end.
use proxy.Base.{
  ℕ, ◌≡◌, refl, sym, ◌∙◌, List, [], ◌∷◌, ◌++◌, append-nil, append_assoc, arith, length, take,
  take_all,
}
use proxy.Sys.{
  Reply, ok, interrupted, failed, Event, received, sent, World, Outcome, done, blocked, undefined,
  aborted, exited, write, delivered,
}
use proxy.Sys.Laws.{write_ok, resume-write, delivered_sent, delivered_received}
use proxy.Sys.Frames.{Keeps, IgnoresIo, resume-world, write-Keeps}
use proxy.SslRedirect.{forward}

-- The run has not come to a result or an exit.
abbrev pub Runs : {A : Type 0} → Outcome A → Type 0
Runs (done a) = ⊥
Runs blocked = Unit {0}
Runs aborted = Unit {0}
Runs undefined = Unit {0}
Runs (exited n) = ⊥

-- All bytes of the replies.
abbrev pub joined : List (List ℕ) → List ℕ
joined [] = []
joined (bs ∷ rest) = bs ++ joined rest

abbrev pub arrive : List (List ℕ) → List (Reply (List ℕ))
arrive [] = []
arrive (bs ∷ rest) = ok bs ∷ arrive rest

abbrev pub taken_whole : List (List ℕ) → List (Reply ℕ)
taken_whole [] = []
taken_whole (bs ∷ rest) = ok (length bs) ∷ taken_whole rest

module _ (source target : ℕ) where
  -- Whatever comes from the source, the end of the stream too, the loop does not end.
  pub forward-Runs : (rs : List (Reply (List ℕ))) (w : World) → Runs (forward source target rs w).0
  unfolding forward
  forward-Runs [] w = tt
  forward-Runs (ok bs ∷ rs) w =
      resume-write (λ (r, v). Runs r) target bs (record w { trace = received source bs ∷ w.trace })
        (λ _. forward source target rs) (λ v. tt) (λ _ v. forward-Runs rs v)
  forward-Runs (interrupted ∷ rs) w = tt
  forward-Runs (failed ∷ rs) w = tt

  pub forward-Keeps :
      {X : Type 0} (view : List Event → X)
      → IgnoresIo target view
      → (rs : List (Reply (List ℕ))) → Keeps view (forward source target rs)
  unfolding forward
  forward-Keeps view I [] w = refl
  forward-Keeps view I (ok bs ∷ rs) w =
      let w₁ : World = record w { trace = received source bs ∷ w.trace } in
      let same : view w₁.trace ≡ view w.trace = I.received_ignored source bs w.trace in
      let (r, w₂) = write target bs w₁ in
      let same' = write-Keeps view target I bs w₁ ∙ same in
      resume-world (λ v. view v.trace ≡ view w.trace) r w₂ _ same'
        (λ _. forward-Keeps view I rs w₂ ∙ same')
  forward-Keeps view I (interrupted ∷ rs) w = refl
  forward-Keeps view I (failed ∷ rs) w = refl

  -- If the kernel takes each chunk whole, then the loop waits for more input after the chunks
  -- that came in, and the target has been given all their bytes.
  pub forward-joined :
      (chunks : List (List ℕ)) (w : World)
      → w.writes ≡ taken_whole chunks
      → let (r, w') = forward source target (arrive chunks) w in
        (r ≡ blocked) × (delivered target w'.trace ≡ delivered target w.trace ++ joined chunks)
  unfolding forward
  forward-joined [] w h = (refl, sym (append-nil _))
  forward-joined (bs ∷ rest) w h =
      let w₁ : World = record w { trace = received source bs ∷ w.trace } in
      let w₂ : World = record w₁ {
        writes = taken_whole rest;
        trace = sent target (take (length bs) bs) ∷ w₁.trace;
      } in
      let (r, d) = forward-joined rest w₂ refl in
      rw (write_ok target bs w₁ h) (
        r,
        d
            ∙ rw (delivered_sent, take_all (length bs) bs (omega arith), delivered_received)
                (append_assoc _ bs (joined rest)),
      )
