-- ===== src/Server/Tunnel.antt =====
-- A tunnel over a kernel that takes each write whole.
use proxy.Base.{ℕ, ◌≡◌, refl, sym, ap, ◌∙◌, ◌≢◌, ◌↔◌, ◌∷◌, ◌++◌, length}
use proxy.Sys.{ok, sent, World, Outcome, done, resume, delivered, spawned}
use proxy.Sys.Laws.{delivered_sent}
use proxy.Sys.Frames.{delivered-IgnoresIo, resume-world}
use proxy.Utils.Write.{write_all_to_socket_at_once}
use proxy.Server.{relay, established, hang_up, carry}
use proxy.Server.Relay.{stream, whole, Stops, relay-stream, relay-done, relay-Keeps}

module _ (client_fd dest_fd : ℕ) where
  resume-hang_up-done :
      (r : Outcome (Unit {0})) (w : World)
      → ((resume r w (λ _. hang_up client_fd dest_fd)).0 ≡ done tt) ↔ (r ≡ done tt)
  unfolding hang_up
  resume-hang_up-done (done u) w = (λ e. refl, λ e. refl)
  resume-hang_up-done r w = (λ e. e, λ e. e)

  delivered-resume-hang_up :
      (fd : ℕ) (r : Outcome (Unit {0})) (w : World)
      → delivered fd (resume r w (λ _. hang_up client_fd dest_fd)).1.trace ≡ delivered fd w.trace
  unfolding hang_up delivered
  delivered-resume-hang_up fd r w =
      resume-world (λ v. delivered fd v.trace ≡ delivered fd w.trace) r w
        (λ _. hang_up client_fd dest_fd) refl (λ _. refl)

  -- If the socket of the client takes the 200 message whole and the destination each chunk, the
  -- client is given the message and the destination the client's bytes, and the thread ends exactly
  -- if the client closes or fails.
  pub carry-whole :
      (w : World)
      → dest_fd ≢ client_fd
      → w.writes ≡ ok (length established) ∷ whole w.reads
      → let (r, w') = carry client_fd dest_fd w in
        ((r ≡ done tt) ↔ Stops w.reads)
        × (delivered client_fd w'.trace ≡ delivered client_fd w.trace ++ established)
        × (delivered dest_fd w'.trace ≡ delivered dest_fd w.trace ++ stream w.reads)
  unfolding carry delivered
  carry-whole w ne h =
      let w₂ : World = record w {
        writes = whole w.reads;
        trace = spawned client_fd dest_fd ∷ sent client_fd established ∷ w.trace;
      } in
      let (r, w₃) = relay client_fd dest_fd w.reads w₂ in
      let kept =
        relay-Keeps client_fd dest_fd (delivered client_fd)
          (delivered-IgnoresIo client_fd dest_fd ne) w.reads w₂ in
      let (out, _) = relay-stream client_fd dest_fd w.reads w₂ refl in
      let others = delivered-IgnoresIo dest_fd client_fd (λ e. ne (sym e)) in
      let ends = resume-hang_up-done r w₃ in
      let stops = relay-done client_fd dest_fd w.reads w₂ refl in
      rw (write_all_to_socket_at_once client_fd 50 _ w h) (
        (λ e. stops.0 (ends.0 e), λ s. ends.1 (stops.1 s)),
        delivered-resume-hang_up client_fd r w₃
            ∙ kept
            ∙ delivered_sent client_fd established w.trace,
        delivered-resume-hang_up dest_fd r w₃
            ∙ out
            ∙ ap (λ t. t ++ stream w.reads) (others.sent_ignored established w.trace),
      )
