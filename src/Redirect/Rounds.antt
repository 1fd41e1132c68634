-- ===== src/Redirect/Rounds.antt =====
-- The accept loop of redirect.c.
use proxy.Base.{ℕ, ◌<◌, ◌≡◌, sym, subst, ◌≢◌, false, some, List, ◌∷◌, length, lt→ltb, ◌++◌, []}
use proxy.Base.Int.{ℤ, pos}
use proxy.Sys.{
  Reply, ok, World, Outcome, done, blocked, aborted, undefined, exited, M, resume, ◌>>=◌, lift,
  write,
}
use proxy.Sys.Laws.{read_ok}
use proxy.Redirect.{
  Net, request_host, is_blocked, parse_req, send_req, google_request, connection_established,
  request_text, act_on, answer, main_round,
}

resume-not_done :
    {A : Type 0} (r : Outcome A) (w : World) (f : A → M (Unit {0}))
    → ((a : A) (v : World) → (f a v).0 ≢ done tt)
    → (resume r w f).0 ≢ done tt
resume-not_done (done a) w f h = h a w
resume-not_done blocked w f h = λ e. cc
resume-not_done aborted w f h = λ e. cc
resume-not_done undefined w f h = λ e. cc
resume-not_done (exited n) w f h = λ e. cc

exited-not_done : (n : ℕ) → ◌≢◌ {A = Outcome (Unit {0})} (exited n) (done tt)
exited-not_done n = λ e. cc

answer-not_done :
    (net : Net) (block_arr : List (List ℕ)) (client_fd target_fd : ℕ) (w : World)
    → (answer net block_arr client_fd target_fd w).0 ≢ done tt
unfolding answer
answer-not_done net block_arr client_fd target_fd w =
    let sending = send_req target_fd google_request w in
    resume-not_done sending.0 sending.1
      (λ res. write client_fd connection_established >>= λ r. lift (exited 0))
      λ res v.
        let writing = write client_fd connection_established v in
        resume-not_done writing.0 writing.1 (λ r. lift (exited 0)) λ r u. exited-not_done 0

act_on-not_done :
    (net : Net) (block_arr : List (List ℕ)) (client_fd target_fd : ℕ) (z : ℤ) (w : World)
    → z ≡ pos target_fd
    → (act_on net block_arr client_fd z w).0 ≢ done tt
unfolding act_on
act_on-not_done net block_arr client_fd target_fd z w e =
    subst (λ k. (act_on net block_arr client_fd k w).0 ≢ done tt) (sym e)
      (answer-not_done net block_arr client_fd target_fd w)

-- A client whose request is shorter than the buffer of 2048, with a host that is not blocked and
-- resolves, and for whom `socket` gives a descriptor, is the last: its round never ends in another
-- `accept`.
pub main_round-last :
    (net : Net) (block_arr : List (List ℕ)) (client_fd target_fd : ℕ) (w : World) (bs host : List ℕ)
    {rs : List (Reply (List ℕ))} {addr : ℕ}
    → w.reads ≡ ok bs ∷ rs
    → length bs < 2048
    → request_host (bs ++ (0 ∷ [])) ≡ done host
    → is_blocked block_arr host ≡ false
    → net.gethostbyname host ≡ some addr
    → net.socket ≡ pos target_fd
    → (main_round net block_arr client_fd w).0 ≢ done tt
unfolding main_round request_text parse_req
main_round-last net block_arr client_fd target_fd w bs host h fits e free known socket =
    rw (read_ok client_fd w h) (
      rw (lt→ltb (length bs) 2048 fits) (
        rw e (
          rw free
            (rw known (act_on-not_done net block_arr client_fd target_fd net.socket _ socket)))))
