-- ===== src/SslRedirect/Connection.antt =====
-- The one connection of ssl-redirect.c.
use proxy.Base.{
  ℕ, ◌≡◌, refl, subst, ◌∙◌, ◌≢◌, ◌⊎◌, inl, inr, List, ◌∷◌, arith, length, ◌==◌, ltb, Bool-cases,
  Option-cases, false,
}
use proxy.CString.{array_str}
use proxy.Sys.{
  Reply, ok, interrupted, failed, World, Outcome, done, blocked, undefined, aborted, exited, M,
  resume, deref, read, terminate, contacts, connecting,
}
use proxy.Sys.Laws.{read_ok, read-outcome}
use proxy.Sys.Frames.{Keeps, contacts-IgnoresIo, >>=-Keeps, read-Keeps}
use proxy.SimpleSet.{SimpleSet}
use proxy.Utils.{Net, parse_host, write_all_to_socket, connect_to_server, connected}
use proxy.Base.Int.{ℤ}
use proxy.Sys.Local.{IsLocal, IsLocal-exits, deref-IsLocal, terminate-IsLocal}
use proxy.Utils.Local.{parse_host-IsLocal}
use proxy.Server.Handle.{assert_fd-IsLocal}
use proxy.Utils.Write.{Ends, write_all_to_socket-take}
use proxy.Utils.Frames.{write_all_to_socket-Keeps}
use proxy.SslRedirect.{check_blocklist}
use proxy.Server.{forbidden, established, assert_fd}
use proxy.SslRedirect.{bufsize, request_text, forbid, carry, tunnel, serve, main_connection}
use proxy.SslRedirect.Forward.{Runs, forward-Runs}

-- A run that comes to an exit has contacted nobody.
abbrev Quits : World → Outcome (Unit {0}) × World → Type 0
Quits w (r, w') = Runs r ⊎ (contacts w'.trace ≡ contacts w.trace)

-- The code does not call `exit`.
record NoExit {A : Type 0} (r : Outcome A) : Type 0 where
  never : (n : ℕ) → r ≢ exited n

resume-Quits :
    {A : Type 0} (w : World) (r : Outcome A) (v : World) (f : A → M (Unit {0}))
    → NoExit r
    → ((a : A) → Quits w (f a v))
    → Quits w (resume r v f)
resume-Quits w (done a) v f n go = go a
resume-Quits w blocked v f n go = inl tt
resume-Quits w aborted v f n go = inl tt
resume-Quits w undefined v f n go = inl tt
resume-Quits w (exited k) v f n go = absurd (n.never k refl)

resume-Runs :
    {A : Type 0} (r : Outcome A) (v : World) (f : A → M (Unit {0}))
    → NoExit r
    → ((a : A) → Runs (f a v).0)
    → Runs (resume r v f).0
resume-Runs (done a) v f n go = go a
resume-Runs blocked v f n go = tt
resume-Runs aborted v f n go = tt
resume-Runs undefined v f n go = tt
resume-Runs (exited k) v f n go = absurd (n.never k refl)

Runs-resume :
    {A : Type 0} (r : Outcome A) (v : World) (f : A → M (Unit {0})) → Runs r → Runs (resume r v f).0
Runs-resume (done a) v f runs = absurd runs
Runs-resume blocked v f runs = tt
Runs-resume aborted v f runs = tt
Runs-resume undefined v f runs = tt
Runs-resume (exited k) v f runs = absurd runs

local-NoExit : {A : Type 0} (r : Outcome A) → IsLocal r → NoExit r
local-NoExit r l = record { never = λ n. IsLocal-exits r n l }

read-NoExit : (fd : ℕ) (w : World) → NoExit (read fd w).0
read-NoExit fd w = elim (read-outcome fd w) [
  | inl e ↦ record { never = λ k h. cc }
  | inr (r, e) ↦ record { never = λ k h. cc }
]

request_text-IsLocal : (r : Reply (List ℕ)) → IsLocal (request_text r)
unfolding request_text
request_text-IsLocal (ok bs) = terminate-IsLocal bufsize bs
request_text-IsLocal interrupted = tt
request_text-IsLocal failed = tt

write_all_to_socket-NoExit :
    (socket : ℕ) (buffer : List ℕ) (w : World) → NoExit (write_all_to_socket socket buffer w).0
write_all_to_socket-NoExit socket buffer w =
    let (k, _, ends) = write_all_to_socket-take socket buffer w in go _ k ends
  where
    go : (r : Outcome ℤ) (k : ℕ) → Ends k r → NoExit r
    go (done z) k e = record { never = λ k h. cc }
    go blocked k e = record { never = λ k h. cc }
    go aborted k e = record { never = λ k h. cc }
    go undefined k e = record { never = λ k h. cc }
    go (exited n) k (inl e) = cc
    go (exited n) k (inr (inl e)) = cc
    go (exited n) k (inr (inr e)) = cc

forbid-contacts : (client_fd : ℕ) → Keeps contacts (forbid client_fd)
unfolding forbid contacts
forbid-contacts client_fd =
    >>=-Keeps contacts (write_all_to_socket client_fd forbidden) _
      (write_all_to_socket-Keeps contacts client_fd (contacts-IgnoresIo client_fd) forbidden)
      (λ z w. refl)

carry-Runs : (client_fd dest_fd : ℕ) (w : World) → Runs (carry client_fd dest_fd w).0
unfolding carry
carry-Runs client_fd dest_fd w =
    resume-Runs _ _ _ (write_all_to_socket-NoExit client_fd established w)
      λ z. Runs-resume _ _ _ (forward-Runs client_fd dest_fd _ _)

tunnel-Runs :
    (net : Net) (client_fd : ℕ) (hostname port : List ℕ) (w : World)
    → Runs (tunnel net client_fd hostname port w).0
unfolding tunnel connect_to_server
tunnel-Runs net client_fd hostname port w = elim (Option-cases (net.getaddrinfo hostname port)) [
  | inl e ↦ rw e tt
  | inr (addr, e) ↦
      let z = connected (net.connects net.socket addr) net.socket in
      let w₁ : World = record w { trace = connecting hostname port ∷ w.trace } in
      rw e (
        resume-Runs (assert_fd z) w₁ (λ dest_fd. carry client_fd dest_fd)
          (local-NoExit _ (assert_fd-IsLocal z)) (λ dest_fd. carry-Runs client_fd dest_fd w₁))
]

module _ (S : SimpleSet) (net : Net) (blocked_set : S.State) (client_fd : ℕ) where
  serve-Quits : (r : Reply (List ℕ)) (w : World) → Quits w (serve S net blocked_set client_fd r w)
  unfolding serve
  serve-Quits r w =
      resume-Quits w (request_text r) w _ (local-NoExit _ (request_text-IsLocal r)) λ text.
        resume-Quits w (parse_host text) w _ (local-NoExit _ (parse_host-IsLocal text)) λ inf.
          resume-Quits w (deref (array_str inf.hostname)) w _
            (local-NoExit _ (deref-IsLocal (array_str inf.hostname)))
            λ hostname.
              resume-Quits w (deref (array_str inf.port)) w _
                (local-NoExit _ (deref-IsLocal (array_str inf.port)))
                λ port. elim (Bool-cases (check_blocklist S blocked_set hostname == 1)) [
                  | inl e ↦ rw e (inr (forbid-contacts client_fd w))
                  | inr e ↦ rw e (inl (tunnel-Runs net client_fd hostname port w))
                ]

  Quits-later :
      (w v : World) (q : Outcome (Unit {0}) × World)
      → contacts v.trace ≡ contacts w.trace
      → Quits v q
      → Quits w q
  Quits-later w v q kept (inl runs) = inl runs
  Quits-later w v q kept (inr same) = inr (same ∙ kept)

  main_connection-Quits : (w : World) → Quits w (main_connection S net blocked_set client_fd w)
  unfolding main_connection
  main_connection-Quits w =
      let kept = read-Keeps contacts client_fd (contacts-IgnoresIo client_fd) client_fd w in
      let (r, v) = read client_fd w in
      resume-Quits w r v (serve S net blocked_set client_fd) (read-NoExit client_fd w)
        (λ a. Quits-later w v (serve S net blocked_set client_fd a v) kept (serve-Quits a v))

  -- The program never exits by itself once it has contacted a host: a run that exits, which only the
  -- answer to a blocked host does, has made no connection.
  pub main_connection-exited :
      (w : World) (n : ℕ)
      → (main_connection S net blocked_set client_fd w).0 ≡ exited n
      → contacts (main_connection S net blocked_set client_fd w).1.trace ≡ contacts w.trace
  main_connection-exited w n h = elim (main_connection-Quits w) [
    | inl runs ↦ absurd (subst Runs h runs)
    | inr same ↦ same
  ]

  -- If the first message fills the array, its NUL is written past the array's end.
  pub main_connection-overflow :
      (w : World) (bs : List ℕ) {rs : List (Reply (List ℕ))}
      → w.reads ≡ ok bs ∷ rs
      → length bs ≡ bufsize
      → (main_connection S net blocked_set client_fd w).0 ≡ undefined
  unfolding main_connection serve request_text terminate
  main_connection-overflow w bs h full =
      let past : ltb (length bs) bufsize ≡ false = ground arith in
      rw (read_ok client_fd w h) (rw past refl)
