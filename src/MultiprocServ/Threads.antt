-- ===== src/MultiprocServ/Threads.antt =====
-- How many clients the accept loop of multiproc_serv.c takes.
use proxy.Base.{
  ℕ, zero, suc, ◌+◌, ◌≤◌, ◌≡◌, refl, ap, ◌∙◌, sym, some, none, Option, List, [], ◌∷◌, ◌++◌, arith,
  length, take, map, append_assoc, append-nil, length-append, lt→ltb,
}
use proxy.Sys.{done}
use proxy.MultiprocServ.{Payload, accept_loop, max_threads}

abbrev pub load_of : ℕ → ℕ → Payload
load_of sockfd fd = record { sockfd = sockfd; new_fd = fd }

pub accept_loop_full :
    (sockfd : ℕ) (loads : List Payload) (rs : List (Option ℕ))
    → length loads ≡ max_threads
    → accept_loop sockfd loads rs ≡ done loads
unfolding accept_loop
accept_loop_full sockfd loads [] full = rw full refl
accept_loop_full sockfd loads (none ∷ rs) full = refl
accept_loop_full sockfd loads (some fd ∷ rs) full = rw full refl

accept_loop-from :
    (left : ℕ) (sockfd : ℕ) (loads : List Payload) (fds : List ℕ)
    → length loads + left ≡ max_threads
    → left ≤ length fds
    → accept_loop sockfd loads (map some fds) ≡ done (loads ++ map (load_of sockfd) (take left fds))
unfolding accept_loop
accept_loop-from zero sockfd loads fds e enough =
    accept_loop_full sockfd loads (map some fds) (omega arith) ∙ ap done (sym (append-nil loads))
accept_loop-from (suc left) sockfd loads [] e enough = absurd (omega arith)
accept_loop-from (suc left) sockfd loads (fd ∷ fds) e enough =
    let loads' = loads ++ (load_of sockfd fd ∷ []) in
    let longer : length loads' ≡ length loads + 1 = length-append loads (load_of sockfd fd ∷ []) in
    rw (lt→ltb (length loads) 20 (omega arith)) (
      accept_loop-from left sockfd loads' fds (omega arith) (omega arith)
      ∙ ap done (append_assoc loads (load_of sockfd fd ∷ []) _))

-- If `accept` gives at least 20 clients and does not fail, the loop ends with a thread for each
-- of the first 20, in order, each with the listening descriptor and its own client.
pub accept_loop-take :
    (sockfd : ℕ) (fds : List ℕ)
    → max_threads ≤ length fds
    → accept_loop sockfd [] (map some fds) ≡ done (map (load_of sockfd) (take max_threads fds))
accept_loop-take sockfd fds enough = accept_loop-from max_threads sockfd [] fds (omega arith) enough
