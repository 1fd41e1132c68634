-- ===== src/Server/Closings.antt =====
-- A thread that ends has closed each of its descriptors.
use proxy.Base.{
  ℕ, ◌+◌, ◌≡◌, refl, ap, ◌∙◌, ◌≢◌, true, false, List, [], ◌∷◌, arith, ◌==◌, if◌then◌else◌,
  Bool-cases, inl, inr, Bool, Option, none, some,
}
use proxy.Base.Int.{ℤ, pos, negsuc}
use proxy.CString.{array_str}
use proxy.Sys.{
  Reply, ok, interrupted, failed, World, done, M, deref, read, terminate, closings, spawned,
  connecting,
}
use proxy.Sys.Laws.{done-injective}
use proxy.Sys.Frames.{closings-IgnoresIo, resume-done, read-Keeps}
use proxy.SimpleSet.{SimpleSet}
use proxy.Utils.{Net, parse_host, write_all_to_socket, connect_to_server, connected}
use proxy.Utils.Frames.{write_all_to_socket-Keeps}
use proxy.Server.{
  bufsize, relay, forbidden, forbid, hang_up, carry, tunnel, established, check_blocklist, serve,
  dispatch, handle_connection, assert_fd,
}
use proxy.Server.Relay.{relay-Keeps}

-- The closings of `g` that end a use of `fd`.
abbrev pub once : ℕ → ℕ → ℕ
once fd g = if g == fd then 1 else 0

module _ (fd : ℕ) where
  -- The descriptor `fd` is closed `n` times more in a run of `m` that ends.
  abbrev pub Closes : ℕ → M (Unit {0}) → Type 0
  Closes n m = (w : World) → (m w).0 ≡ done tt → closings fd (m w).1.trace ≡ closings fd w.trace + n

  forbid-Closes : (client_fd : ℕ) → Closes (once fd client_fd) (forbid client_fd)
  unfolding forbid closings
  forbid-Closes client_fd w h =
      let same =
        write_all_to_socket-Keeps (closings fd) client_fd (closings-IgnoresIo fd client_fd)
          forbidden w in
      resume-done (λ v. closings fd v.trace ≡ closings fd w.trace + once fd client_fd)
        (write_all_to_socket client_fd forbidden w).0 (write_all_to_socket client_fd forbidden w).1
        _ (λ z _ e. ground (arith, same)) h

  hang_up-closings :
      (client_fd dest_fd : ℕ) (w : World)
      → closings fd (hang_up client_fd dest_fd w).1.trace
        ≡ closings fd w.trace + once fd client_fd + once fd dest_fd
  unfolding hang_up closings
  hang_up-closings client_fd dest_fd w = ground arith

  carry-Closes :
      (client_fd dest_fd : ℕ) (w : World)
      → (carry client_fd dest_fd w).0 ≡ done tt
      → closings fd (carry client_fd dest_fd w).1.trace
        ≡ closings fd w.trace + once fd client_fd + once fd dest_fd
  unfolding carry closings
  carry-Closes client_fd dest_fd w h =
      let (r, w₁) = write_all_to_socket client_fd established w in
      let w₂ : World = record w₁ { trace = spawned client_fd dest_fd ∷ w₁.trace } in
      let (q, w₃) = relay client_fd dest_fd w₂.reads w₂ in
      let P : World → Type 0 =
        λ v. closings fd v.trace ≡ closings fd w.trace + once fd client_fd + once fd dest_fd in
      let first =
        write_all_to_socket-Keeps (closings fd) client_fd (closings-IgnoresIo fd client_fd)
          established w in
      let second =
        relay-Keeps client_fd dest_fd (closings fd) (closings-IgnoresIo fd dest_fd) w₂.reads w₂ in
      resume-done P r w₁ _
        (λ z _. resume-done P q w₃ _ (λ u _ e.
          hang_up-closings client_fd dest_fd w₃
          ∙ ap (λ n. n + once fd client_fd + once fd dest_fd) (second ∙ first)))
        h

module _ (S : SimpleSet) (net : Net) (blocked_set : S.State) (client_fd fd : ℕ)
    (elsewhere : net.socket ≢ pos fd) where
  dest_ne :
      (c : Bool) (z : ℤ) (dest_fd : ℕ)
      → z ≢ pos fd
      → assert_fd (connected c z) ≡ done dest_fd
      → dest_fd ≢ fd
  dest_ne true (pos n) dest_fd ne h e = ne (ap pos (done-injective h ∙ e))
  dest_ne true (negsuc n) dest_fd ne h e = cc
  dest_ne false z dest_fd ne h e = cc

  tunnel-Closes :
      (hostname port : List ℕ) → Closes fd (once fd client_fd) (tunnel net client_fd hostname port)
  unfolding tunnel connect_to_server closings
  tunnel-Closes hostname port w = go (net.getaddrinfo hostname port) refl
    where
      go :
          (o : Option ℕ)
          → net.getaddrinfo hostname port ≡ o
          → (tunnel net client_fd hostname port w).0 ≡ done tt
          → closings fd (tunnel net client_fd hostname port w).1.trace
            ≡ closings fd w.trace + once fd client_fd
      go none e = rw e (λ h. cc)
      go (some addr) e =
          let c = net.connects net.socket addr in
          let w₁ : World = record w { trace = connecting hostname port ∷ w.trace } in
          rw e (
            resume-done (λ v. closings fd v.trace ≡ closings fd w.trace + once fd client_fd)
              (assert_fd (connected c net.socket)) w₁ (λ dest_fd. carry client_fd dest_fd)
              (λ dest_fd found h. ground (
                arith,
                dest_ne c net.socket dest_fd elsewhere found,
                carry-Closes fd client_fd dest_fd w₁ h,
              )))

  serve-Closes :
      (request : List ℕ) → Closes fd (once fd client_fd) (serve S net blocked_set client_fd request)
  unfolding serve
  serve-Closes request w =
      let P : World → Type 0 = λ v. closings fd v.trace ≡ closings fd w.trace + once fd client_fd in
      resume-done P (terminate (bufsize + 1) request) w _ λ text _.
        resume-done P (parse_host text) w _ λ inf _.
          resume-done P (deref (array_str inf.hostname)) w _ λ hostname _.
            resume-done P (deref (array_str inf.port)) w _ λ port _.
              elim (Bool-cases (check_blocklist S blocked_set hostname == 1)) [
                | inl e ↦ rw e (forbid-Closes fd client_fd w)
                | inr e ↦ rw e (tunnel-Closes hostname port w)
              ]

  dispatch-Closes :
      (r : Reply (List ℕ)) → Closes fd (once fd client_fd) (dispatch S net blocked_set client_fd r)
  dispatch-Closes (ok []) w h = forbid-Closes fd client_fd w h
  dispatch-Closes (ok (b ∷ bs)) w h = serve-Closes (b ∷ bs) w h
  dispatch-Closes interrupted w h = forbid-Closes fd client_fd w h
  dispatch-Closes failed w h = forbid-Closes fd client_fd w h

  -- A thread that ends has closed a descriptor that the new socket does not have once if it is the
  -- client's, and otherwise not at all.
  pub handle_connection-Closes :
      Closes fd (once fd client_fd) (handle_connection S net blocked_set client_fd)
  unfolding handle_connection
  handle_connection-Closes w =
      resume-done (λ v. closings fd v.trace ≡ closings fd w.trace + once fd client_fd)
        (read client_fd w).0 (read client_fd w).1 (dispatch S net blocked_set client_fd)
        (λ r _ h.
          dispatch-Closes r (read client_fd w).1 h
          ∙ ap (λ n. n + once fd client_fd)
              (read-Keeps (closings fd) client_fd (closings-IgnoresIo fd client_fd) client_fd w))

-- If the new socket is not the client's descriptor, a thread that ends, whichever way it went, has
-- closed the client's descriptor exactly once.
pub handle_connection-closings :
    (S : SimpleSet) (net : Net) (blocked_set : S.State) (client_fd : ℕ) (w : World)
    → net.socket ≢ pos client_fd
    → (handle_connection S net blocked_set client_fd w).0 ≡ done tt
    → closings client_fd (handle_connection S net blocked_set client_fd w).1.trace
      ≡ closings client_fd w.trace + 1
handle_connection-closings S net blocked_set client_fd w ne h =
    ground (arith, handle_connection-Closes S net blocked_set client_fd client_fd ne w h)
