-- ===== src/Server/Main/Handshake.antt =====
-- The accept loop under a scheduler that runs each new thread before the next `accept` returns.
use proxy.Base.{ℕ, ◌≡◌, refl, ap, List, [], ◌∷◌}
use proxy.Server.Main.{Loop, fresh, accept_round, read_argument}

-- The loop fed with the descriptors that `accept` returns, each thread reading at once.
abbrev pub run : List ℕ → Loop → Loop
run [] s = s
run (fd ∷ fds) s = run fds (read_argument s.created (accept_round fd s))

run-serving_onto :
    (fds : List ℕ) (s : Loop)
    → s.serving ≡ s.accepted
    → ((run fds s).serving ≡ (run fds s).accepted) × ((run fds s).created ≡ s.created)
unfolding accept_round read_argument
run-serving_onto [] s h = (h, refl)
run-serving_onto (fd ∷ fds) s h =
    run-serving_onto fds (read_argument s.created (accept_round fd s)) (ap (λ l. fd ∷ l) h)

-- If each thread reads its argument before the next `accept`, then each accepted descriptor is
-- served by exactly one thread, in order, and no thread is waiting.
pub run-serving :
    (fds : List ℕ)
    → ((run fds fresh).serving ≡ (run fds fresh).accepted) × ((run fds fresh).created ≡ 0)
run-serving fds = run-serving_onto fds fresh refl
