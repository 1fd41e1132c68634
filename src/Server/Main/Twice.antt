-- ===== src/Server/Main/Twice.antt =====
-- What becomes of two clients where both threads have read the second one's descriptor.
use proxy.Base.{ℕ, ◌+◌, ◌<◌, ◌≡◌, ◌≢◌, [], ◌∷◌, arith, ap}
use proxy.Base.Int.{pos}
use proxy.Sys.{World, done, closings}
use proxy.SimpleSet.{SimpleSet}
use proxy.Utils.{Net}
use proxy.Server.{handle_connection}
use proxy.Server.Closings.{once, handle_connection-Closes}
use proxy.Server.Main.{Loop, Reach, fresh}
use proxy.Server.Main.Race.{two_serve_one}

module _ (S : SimpleSet) (blocked_set : S.State) where
  -- A run from an empty trace.
  run-closings :
      (net : Net) (client_fd fd : ℕ) (w : World)
      → net.socket ≢ pos fd
      → w.trace ≡ []
      → (handle_connection S net blocked_set client_fd w).0 ≡ done tt
      → closings fd (handle_connection S net blocked_set client_fd w).1.trace ≡ once fd client_fd
  unfolding closings
  run-closings net client_fd fd w ne start h =
      let none_yet = ap (closings fd) start in
      ground (arith, handle_connection-Closes S net blocked_set client_fd fd ne w h)

  -- For any two descriptors that `accept` gives in turn there is a state that the loop of `main`
  -- reaches, in which its two threads serve the second one. If neither thread's new socket is one of
  -- the two, and both threads end, then together they have closed the second client's descriptor
  -- twice and the first client's never.
  pub closed_twice :
      (fd fd' : ℕ) (net₁ net₂ : Net) (w₁ w₂ : World)
      → 0 < fd
      → 0 < fd'
      → fd ≢ fd'
      → w₁.trace ≡ []
      → w₂.trace ≡ []
      → net₁.socket ≢ pos fd
      → net₁.socket ≢ pos fd'
      → net₂.socket ≢ pos fd
      → net₂.socket ≢ pos fd'
      → (handle_connection S net₁ blocked_set fd' w₁).0 ≡ done tt
      → (handle_connection S net₂ blocked_set fd' w₂).0 ≡ done tt
      → let t₁ = (handle_connection S net₁ blocked_set fd' w₁).1.trace in
        let t₂ = (handle_connection S net₂ blocked_set fd' w₂).1.trace in
        (s : Loop) × Reach fresh s
        × (s.accepted ≡ fd' ∷ fd ∷ [])
        × (s.serving ≡ fd' ∷ fd' ∷ [])
        × (closings fd' t₁ + closings fd' t₂ ≡ 2)
        × (closings fd t₁ + closings fd t₂ ≡ 0)
  closed_twice fd fd' net₁ net₂ w₁ w₂ p q ne e₁ e₂ a₁ b₁ a₂ b₂ d₁ d₂ =
      let (s, r, accepted, serving, _, _) = two_serve_one fd fd' p q ne in
      (
        s,
        r,
        accepted,
        serving,
        ground
            (arith, run-closings net₁ fd' fd' w₁ b₁ e₁ d₁, run-closings net₂ fd' fd' w₂ b₂ e₂ d₂),
        ground (arith, run-closings net₁ fd' fd w₁ a₁ e₁ d₁, run-closings net₂ fd' fd w₂ a₂ e₂ d₂),
      )
