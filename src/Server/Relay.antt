-- ===== src/Server/Relay.antt =====
-- What one direction of a tunnel passes on.
use proxy.Base.{
  ℕ, ◌≡◌, refl, sym, ◌↔◌, ◌∙◌, List, [], ◌∷◌, ◌++◌, append-nil, append_assoc, arith, length, take,
  take_all,
}
use proxy.Sys.{
  Reply, ok, interrupted, failed, Event, sent, received, World, done, write, delivered, taken,
}
use proxy.Sys.Frames.{Keeps, IgnoresIo, resume-world, write-Keeps, Preserves, write-Preserves}
use proxy.Sys.Laws.{write_ok, delivered_sent, delivered_received, taken_sent, taken_received}
use proxy.Server.{relay}

-- The bytes that come in before the peer closes or fails.
abbrev pub stream : List (Reply (List ℕ)) → List ℕ
stream [] = []
stream (ok [] ∷ rs) = []
stream (ok (b ∷ bs) ∷ rs) = (b ∷ bs) ++ stream rs
stream (interrupted ∷ rs) = stream rs
stream (failed ∷ rs) = []

-- What the writes take of the chunks that come in before the peer closes or fails, each chunk being
-- written once: the bytes that a write leaves are lost, and so is the chunk of a write that fails.
abbrev pub kept : List (Reply (List ℕ)) → List (Reply ℕ) → List ℕ
kept [] ws = []
kept (ok [] ∷ rs) ws = []
kept (ok (b ∷ bs) ∷ rs) [] = []
kept (ok (b ∷ bs) ∷ rs) (ok n ∷ ws) = take n (b ∷ bs) ++ kept rs ws
kept (ok (b ∷ bs) ∷ rs) (interrupted ∷ ws) = kept rs ws
kept (ok (b ∷ bs) ∷ rs) (failed ∷ ws) = kept rs ws
kept (interrupted ∷ rs) ws = kept rs ws
kept (failed ∷ rs) ws = []

-- The replies of a kernel that takes each chunk whole.
abbrev pub whole : List (Reply (List ℕ)) → List (Reply ℕ)
whole [] = []
whole (ok [] ∷ rs) = []
whole (ok (b ∷ bs) ∷ rs) = ok (length (b ∷ bs)) ∷ whole rs
whole (interrupted ∷ rs) = whole rs
whole (failed ∷ rs) = []

-- The peer closes or fails.
abbrev pub Stops : List (Reply (List ℕ)) → Type 0
Stops [] = ⊥
Stops (ok [] ∷ rs) = Unit {0}
Stops (ok (b ∷ bs) ∷ rs) = Stops rs
Stops (interrupted ∷ rs) = Stops rs
Stops (failed ∷ rs) = Unit {0}

module _ (source target : ℕ) where
  pub relay-Keeps :
      {X : Type 0} (view : List Event → X)
      → IgnoresIo target view
      → (rs : List (Reply (List ℕ))) → Keeps view (relay source target rs)
  unfolding relay
  relay-Keeps view I [] w = refl
  relay-Keeps view I (ok [] ∷ rs) w = refl
  relay-Keeps view I (ok (b ∷ bs) ∷ rs) w =
      let w₁ = record w { trace = received source (b ∷ bs) ∷ w.trace } in
      let (r, w₂) = write target (b ∷ bs) w₁ in
      resume-world (λ v. view v.trace ≡ view w.trace) r w₂ (λ _. relay source target rs)
        (write-Keeps view target I (b ∷ bs) w₁ ∙ I.received_ignored source (b ∷ bs) w.trace)
        (λ _.
          relay-Keeps view I rs w₂
          ∙ write-Keeps view target I (b ∷ bs) w₁
          ∙ I.received_ignored source (b ∷ bs) w.trace)
  relay-Keeps view I (interrupted ∷ rs) w = relay-Keeps view I rs w
  relay-Keeps view I (failed ∷ rs) w = refl

  -- What the bytes of one direction keep, the loop keeps.
  pub relay-Preserves :
      (P : List Event → Type 0)
      → ((bs : List ℕ) (es : List Event) → P es → P (received source bs ∷ es))
      → ((bs : List ℕ) (es : List Event) → P es → P (sent target bs ∷ es))
      → (rs : List (Reply (List ℕ))) → Preserves P (relay source target rs)
  unfolding relay
  relay-Preserves P took gave [] w h = h
  relay-Preserves P took gave (ok [] ∷ rs) w h = h
  relay-Preserves P took gave (ok (b ∷ bs) ∷ rs) w h =
      let w₁ = record w { trace = received source (b ∷ bs) ∷ w.trace } in
      let (r, w₂) = write target (b ∷ bs) w₁ in
      let h₂ = write-Preserves P target gave (b ∷ bs) w₁ (took (b ∷ bs) w.trace h) in
      resume-world (λ v. P v.trace) r w₂ (λ _. relay source target rs) h₂
        (λ _. relay-Preserves P took gave rs w₂ h₂)
  relay-Preserves P took gave (interrupted ∷ rs) w h = relay-Preserves P took gave rs w h
  relay-Preserves P took gave (failed ∷ rs) w h = h

  -- If the kernel takes each chunk whole, the target has been given exactly the bytes that came
  -- from the source before it closed or failed.
  pub relay-stream :
      (rs : List (Reply (List ℕ))) (w : World)
      → w.writes ≡ whole rs
      → let w' = (relay source target rs w).1 in
        (delivered target w'.trace ≡ delivered target w.trace ++ stream rs)
        × (taken source w'.trace ≡ taken source w.trace ++ stream rs)
  unfolding relay
  relay-stream [] w h = (sym (append-nil _), sym (append-nil _))
  relay-stream (ok [] ∷ rs) w h = (sym (append-nil _), sym (append-nil _))
  relay-stream (ok (b ∷ bs) ∷ rs) w h =
      let w₁ : World = record w { trace = received source (b ∷ bs) ∷ w.trace } in
      let w₂ : World = record w₁ {
        writes = whole rs;
        trace = sent target (take (length (b ∷ bs)) (b ∷ bs)) ∷ w₁.trace;
      } in
      let (d, t) = relay-stream rs w₂ refl in
      rw (write_ok target (b ∷ bs) w₁ h) (
        d
            ∙ rw
                (
                  delivered_sent,
                  take_all (length (b ∷ bs)) (b ∷ bs) (omega arith),
                  delivered_received,
                )
                (append_assoc _ (b ∷ bs) (stream rs)),
        t ∙ rw (taken_sent, taken_received) (append_assoc _ (b ∷ bs) (stream rs)),
      )
  relay-stream (interrupted ∷ rs) w h = relay-stream rs w h
  relay-stream (failed ∷ rs) w h = (sym (append-nil _), sym (append-nil _))

  -- If the kernel takes each chunk whole, the loop ends exactly if the source closes or fails.
  pub relay-done :
      (rs : List (Reply (List ℕ))) (w : World)
      → w.writes ≡ whole rs
      → ((relay source target rs w).0 ≡ done tt) ↔ Stops rs
  unfolding relay
  relay-done [] w h = (λ e. cc, λ s. absurd s)
  relay-done (ok [] ∷ rs) w h = (λ e. tt, λ s. refl)
  relay-done (ok (b ∷ bs) ∷ rs) w h =
      let w₁ : World = record w { trace = received source (b ∷ bs) ∷ w.trace } in
      rw (write_ok target (b ∷ bs) w₁ h) (
        relay-done rs
          (record w₁ {
            writes = whole rs;
            trace = sent target (take (length (b ∷ bs)) (b ∷ bs)) ∷ w₁.trace;
          })
          refl)
  relay-done (interrupted ∷ rs) w h = relay-done rs w h
  relay-done (failed ∷ rs) w h = (λ e. tt, λ s. refl)

  relay-kept_by :
      (rs : List (Reply (List ℕ))) (ws : List (Reply ℕ)) (v : World)
      → v.writes ≡ ws
      → delivered target (relay source target rs v).1.trace ≡ delivered target v.trace ++ kept rs ws
  unfolding relay write
  relay-kept_by [] ws v h = sym (append-nil _)
  relay-kept_by (ok [] ∷ rs) ws v h = sym (append-nil _)
  relay-kept_by (ok (b ∷ bs) ∷ rs) [] v h =
      rw h (delivered_received target source (b ∷ bs) v.trace ∙ sym (append-nil _))
  relay-kept_by (ok (b ∷ bs) ∷ rs) (ok n ∷ ws) v h =
      let v₁ : World = record v {
        writes = ws;
        trace = sent target (take n (b ∷ bs)) ∷ received source (b ∷ bs) ∷ v.trace;
      } in
      rw h (
        relay-kept_by rs ws v₁ refl
        ∙ rw (delivered_sent, delivered_received) (append_assoc _ (take n (b ∷ bs)) (kept rs ws)))
  relay-kept_by (ok (b ∷ bs) ∷ rs) (interrupted ∷ ws) v h = rw h (
      relay-kept_by rs ws (record v { writes = ws; trace = received source (b ∷ bs) ∷ v.trace })
        refl
      ∙ rw delivered_received refl)
  relay-kept_by (ok (b ∷ bs) ∷ rs) (failed ∷ ws) v h = rw h (
      relay-kept_by rs ws (record v { writes = ws; trace = received source (b ∷ bs) ∷ v.trace })
        refl
      ∙ rw delivered_received refl)
  relay-kept_by (interrupted ∷ rs) ws v h = relay-kept_by rs ws v h
  relay-kept_by (failed ∷ rs) ws v h = sym (append-nil _)

  -- Whatever the reads and the writes return, the target has been given of each chunk what the one
  -- `write` of that chunk took, and nothing more.
  pub relay-kept :
      (rs : List (Reply (List ℕ))) (w : World)
      → delivered target (relay source target rs w).1.trace
        ≡ delivered target w.trace ++ kept rs w.writes
  relay-kept rs w = relay-kept_by rs w.writes w refl
