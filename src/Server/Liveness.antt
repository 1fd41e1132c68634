-- ===== src/Server/Liveness.antt =====
-- A thread comes to an end once its client and the kernel answer.
use proxy.Base.{
  ℕ, ◌+◌, ◌≤◌, ◌≡◌, ◌≢◌, ◌==◌, sym, ap, subst, inl, inr, List, [], ◌∷◌, arith, length, Bool-cases,
  Option-cases, ◌⊎◌, some, refl, true,
}
use proxy.Base.Int.{pos}
use proxy.CString.{array_str}
use proxy.Sys.{
  Reply, ok, interrupted, failed, received, connecting, spawned, World, Outcome, blocked, resume,
  deref, terminate, take_reply, done,
}
use proxy.Sys.Laws.{read_reply, resume-ends}
use proxy.Sys.Answers.{answers, resume-write_answered}
use proxy.SimpleSet.{SimpleSet}
use proxy.Utils.{Net, parse_host, write_all_to_socket, connect_to_server, connected}
use proxy.Sys.Local.{IsLocal-waits, deref-IsLocal, terminate-IsLocal}
use proxy.Utils.Local.{parse_host-IsLocal}
use proxy.Server.Handle.{assert_fd-IsLocal}
use proxy.Utils.Ends.{write_all_to_socket-Returns}
use proxy.Utils.Host.{request_line}
use proxy.Server.Requests.{GoodRequest, handle_connection-request_line}
use proxy.Server.Relay.{Stops}
use proxy.Server.{
  bufsize, relay, forbidden, forbid, tunnel, established, check_blocklist, serve, dispatch, carry,
  hang_up, handle_connection, assert_fd,
}

-- The code does not wait for ever.
abbrev pub Ends : Outcome (Unit {0}) × World → Type 0
Ends (r, w) = r ≢ blocked

relay-returns :
    (source target : ℕ) (rs : List (Reply (List ℕ))) (w : World)
    → Stops rs
    → length rs ≤ answers w.writes
    → (relay source target rs w).0 ≡ done tt
unfolding relay
relay-returns source target [] w stops enough = absurd stops
relay-returns source target (ok [] ∷ rs) w stops enough = refl
relay-returns source target (ok (b ∷ bs) ∷ rs) w stops enough =
    resume-write_answered (λ p. p.0 ≡ done tt) target (b ∷ bs)
      (record w { trace = received source (b ∷ bs) ∷ w.trace }) _ (omega (arith, enough))
      λ a v left. relay-returns source target rs v stops (omega (arith, enough, left))
relay-returns source target (interrupted ∷ rs) w stops enough =
    relay-returns source target rs w stops (omega (arith, enough))
relay-returns source target (failed ∷ rs) w stops enough = refl

forbid-returns :
    (client_fd : ℕ) (w : World)
    → length forbidden ≤ answers w.writes
    → (forbid client_fd w).0 ≡ done tt
unfolding forbid
forbid-returns client_fd w enough =
    let ((z, returned), used, same) = write_all_to_socket-Returns client_fd forbidden w enough in
    rw returned refl

carry-returns :
    (client_fd dest_fd : ℕ) (w : World)
    → Stops w.reads
    → length established + length w.reads ≤ answers w.writes
    → (carry client_fd dest_fd w).0 ≡ done tt
unfolding carry hang_up
carry-returns client_fd dest_fd w stops enough =
    let ((z, returned), used, same) =
      write_all_to_socket-Returns client_fd established w (omega (arith, enough)) in
    let w₁ = (write_all_to_socket client_fd established w).1 in
    let w₂ : World = record w₁ { trace = spawned client_fd dest_fd ∷ w₁.trace } in
    let relayed : (relay client_fd dest_fd w₁.reads w₂).0 ≡ done tt =
      relay-returns client_fd dest_fd w₁.reads w₂ (subst Stops (sym same) stops)
        (omega (arith, enough, used, ap length same)) in
    rw returned (rw relayed refl)

-- A run that is done does not wait.
done-Ends : (r : Outcome (Unit {0})) (w : World) → r ≡ done tt → Ends (r, w)
done-Ends r w e q = cc

tunnel-Ends :
    (net : Net) (client_fd : ℕ) (hostname port : List ℕ) (w : World)
    → Stops w.reads
    → length established + length w.reads ≤ answers w.writes
    → Ends (tunnel net client_fd hostname port w)
unfolding tunnel connect_to_server
tunnel-Ends net client_fd hostname port w stops enough =
    elim (Option-cases (net.getaddrinfo hostname port)) [
      | inl unknown ↦ rw unknown (λ e. cc)
      | inr (addr, known) ↦ rw known (
          let w₁ : World = record w { trace = connecting hostname port ∷ w.trace } in
          let z = connected (net.connects net.socket addr) net.socket in
          resume-ends (assert_fd z) w₁ _ (IsLocal-waits _ (assert_fd-IsLocal z))
            λ dest_fd e. done-Ends _ w (carry-returns client_fd dest_fd w₁ stops enough))
    ]

module _ (S : SimpleSet) (net : Net) (blocked_set : S.State) (client_fd : ℕ) where
  serve-Ends :
      (request : List ℕ) (w : World)
      → Stops w.reads
      → length forbidden + length w.reads ≤ answers w.writes
      → Ends (serve S net blocked_set client_fd request w)
  unfolding serve
  serve-Ends request w stops enough =
      resume-ends (terminate (bufsize + 1) request) w _
        (IsLocal-waits _ (terminate-IsLocal _ request))
        λ text _.
          resume-ends (parse_host text) w _ (IsLocal-waits _ (parse_host-IsLocal text)) λ inf _.
            resume-ends (deref (array_str inf.hostname)) w _
              (IsLocal-waits _ (deref-IsLocal (array_str inf.hostname)))
              λ hostname _.
                resume-ends (deref (array_str inf.port)) w _
                  (IsLocal-waits _ (deref-IsLocal (array_str inf.port)))
                  λ port _. elim (Bool-cases (check_blocklist S blocked_set hostname == 1)) [
                    | inl e ↦
                        rw e (done-Ends _ w (forbid-returns client_fd w (omega (arith, enough))))
                    | inr e ↦
                        rw e
                          (tunnel-Ends net client_fd hostname port w stops (omega (arith, enough)))
                  ]

  dispatch-Ends :
      (r : Reply (List ℕ)) (w : World)
      → Stops w.reads
      → length forbidden + length w.reads ≤ answers w.writes
      → Ends (dispatch S net blocked_set client_fd r w)
  dispatch-Ends (ok []) w stops enough =
      done-Ends _ w (forbid-returns client_fd w (omega (arith, enough)))
  dispatch-Ends (ok (b ∷ bs)) w stops enough = serve-Ends (b ∷ bs) w stops enough
  dispatch-Ends interrupted w stops enough =
      done-Ends _ w (forbid-returns client_fd w (omega (arith, enough)))
  dispatch-Ends failed w stops enough =
      done-Ends _ w (forbid-returns client_fd w (omega (arith, enough)))

  -- If the first `read` comes to an end, the client closes or fails in the end, and the kernel
  -- answers, other than by EINTR, as many writes as the 403 message has bytes and the client has
  -- replies to read, then the thread does not wait for ever: it ends, or it stops at a failed
  -- `assert` or an undefined access.
  pub handle_connection-Ends :
      (w : World) {r : Reply (List ℕ)} {rs : List (Reply (List ℕ))}
      → w.reads ≡ r ∷ rs
      → Stops rs
      → length forbidden + length rs ≤ answers w.writes
      → Ends (handle_connection S net blocked_set client_fd w)
  unfolding handle_connection
  handle_connection-Ends w {r} {rs} h stops enough = rw (read_reply client_fd w h) (arrived r)
    where
      arrived :
          (q : Reply (List ℕ))
          → Ends (
              resume
                (take_reply client_fd q (record w { reads = rs })).0
                (take_reply client_fd q (record w { reads = rs })).1
                (dispatch S net blocked_set client_fd))
      arrived (ok bs) = dispatch-Ends (ok bs) _ stops enough
      arrived interrupted = dispatch-Ends interrupted _ stops enough
      arrived failed = dispatch-Ends failed _ stops enough

-- If the first `read` gives a well-formed request, for a host that is blocked, or that resolves and
-- accepts, the client closes or fails in the end, and the kernel answers, other than by EINTR, as
-- many writes as the 403 message has bytes and the client has replies to read, then the thread
-- comes to its last statement.
pub handle_connection-returns :
    (before host port rest : List ℕ) (g : GoodRequest before host port rest) (S : SimpleSet)
    (net : Net) (blocked_set : S.State) (client_fd : ℕ) (w : World) {rs : List (Reply (List ℕ))}
    {addr dest_fd : ℕ}
    → w.reads ≡ ok (request_line before host port rest) ∷ rs
    → (check_blocklist S blocked_set host ≡ 1)
      ⊎ ((net.getaddrinfo host port ≡ some addr)
          × (net.socket ≡ pos dest_fd)
          × (net.connects net.socket addr ≡ true))
    → Stops rs
    → length forbidden + length rs ≤ answers w.writes
    → (handle_connection S net blocked_set client_fd w).0 ≡ done tt
unfolding tunnel connect_to_server
handle_connection-returns before host port rest g S net blocked_set client_fd w {rs} {addr}
      {dest_fd} h either stops enough =
    let w₁ : World = record w {
      reads = rs;
      trace = received client_fd (request_line before host port rest) ∷ w.trace;
    } in
    let turned_away = forbid-returns client_fd w₁ (omega (arith, enough)) in
    let w₂ : World = record w₁ { trace = connecting host port ∷ w₁.trace } in
    let carried = carry-returns client_fd dest_fd w₂ stops (omega (arith, enough)) in
    rw (handle_connection-request_line before host port rest g S net blocked_set client_fd w h)
      (elim (Bool-cases (check_blocklist S blocked_set host == 1)) [
        | inl e ↦ rw e turned_away
        | inr e ↦ rw e (elim either [
          | inl blocked_host ↦ absurd (ground arith)
          | inr (found, socket, accepts) ↦ rw found (rw accepts (rw socket carried))
        ])
      ])
