-- ===== src/Redirect/Turned.antt =====
-- The answer of redirect.c to a client whose host is blocked.
pub mod Pieces
use proxy.Base.{
  ℕ, zero, suc, ◌+◌, ◌<◌, ◌≡◌, refl, sym, ap, ◌∙◌, ◌≢◌, true, false, some, List, [], ◌∷◌, ◌++◌,
  append-nil, append_assoc, arith, bytes, length, lt→ltb, ltb, take, take_all, Bool-cases, inl, inr,
}
use proxy.Base.Int.{pos}
use proxy.CString.{c_str, strstr, starts_with, isspace}
use proxy.Sys.{
  Reply, ok, interrupted, failed, Event, sent, received, connecting, closed, emit, World, Outcome,
  done, M, ◌>>=◌, write, terminate, delivered, closings, contacts,
}
use proxy.Sys.Laws.{delivered_other, read_ok, write_ok, delivered_sent, delivered_received}
use proxy.SslRedirect.Forward.{joined, arrive}
use proxy.Redirect.{
  Net, request_host, scan_host, check_length, is_blocked, parse_req, step_back, send_from,
  receive_from, response_size, send_req, redirect_request, moved, request_text, turn_down, act_on,
  main_round,
}
use proxy.Redirect.Sending.{Full, receive_from-joined}
use proxy.Redirect.Turned.Pieces.{
  page_host, page_request, send_req-whole, pass_back, passed_client, passed_other,
  delivered_nothing, closed_again,
}

-- What the client and the page's host have been given, and whom the program contacted.
abbrev pub Answered :
    (client_fd target_fd : ℕ) → List (List ℕ) → World → Outcome (Unit {0}) × World → Type 0
Answered client_fd target_fd chunks w (r, w') =
    (r ≡ done tt)
    × (delivered client_fd w'.trace ≡ delivered client_fd w.trace ++ (moved ++ joined chunks))
    × (delivered target_fd w'.trace ≡ delivered target_fd w.trace ++ redirect_request)
    × (contacts w'.trace ≡ page_host ∷ contacts w.trace)
    × (closings client_fd w'.trace ≡ closings client_fd w.trace + 1)

module _ (net : Net) (block_arr : List (List ℕ)) (client_fd target_fd : ℕ) (chunks : List (List ℕ))
    (other : target_fd ≢ client_fd) (full : Full chunks)
    (fits : length (joined chunks) < response_size) (free : is_blocked block_arr page_host ≡ false)
    {addr : ℕ} (known : net.gethostbyname page_host ≡ some addr)
    (socket : net.socket ≡ pos target_fd) where
  turn_down-Answered :
      (w : World)
      → w.writes
        ≡ ok 0 ∷ ok (length redirect_request) ∷ ok (length moved) ∷ ok (length (joined chunks)) ∷ []
      → w.reads ≡ arrive chunks ++ (ok [] ∷ [])
      → Answered client_fd target_fd chunks w (turn_down net block_arr client_fd w)
  unfolding turn_down parse_req contacts closings
  turn_down-Answered w h k =
      let w₁ : World = record w {
        writes =
            ok (length redirect_request) ∷ ok (length moved) ∷ ok (length (joined chunks)) ∷ [];
        trace = connecting page_host (bytes "80") ∷ sent client_fd [] ∷ w.trace;
      } in
      rw (write_ok client_fd [] w h) (
        rw page_request (
          rw free (
            rw known (
              rw socket (
                let v = (send_req target_fd redirect_request w₁).1 in
                let (page, out, left) =
                  sending (delivered client_fd) (taken_off client_fd) w₁ refl k in
                let (_, out_target, _) =
                  sending (delivered target_fd) (taken_off target_fd) w₁ refl k in
                let (_, out_contacts, _) = sending contacts (λ bs es. refl) w₁ refl k in
                let (_, out_closings, _) = sending (closings client_fd) (λ bs es. refl) w₁ refl k in
                rw page (
                  rw (pass_back client_fd (joined chunks) v left) (
                    refl,
                    passed_client client_fd (joined chunks) _
                        ∙ ap (λ t. t ++ (moved ++ joined chunks))
                            (out
                              ∙ delivered_other client_fd target_fd redirect_request _ other
                              ∙ delivered_nothing client_fd client_fd page_host (bytes "80")
                                  w.trace),
                    passed_other target_fd client_fd (joined chunks) _ (λ e. other (sym e))
                        ∙ out_target
                        ∙ delivered_sent target_fd redirect_request _
                        ∙ ap (λ t. t ++ redirect_request)
                            (delivered_nothing target_fd client_fd page_host (bytes "80") w.trace),
                    out_contacts,
                    closed_again client_fd (joined chunks) v.trace ∙ ap (λ n. n + 1) out_closings,
                  )))))))
    where
      taken_off :
          (fd : ℕ) (bs : List ℕ) (es : List Event)
          → delivered fd (received target_fd bs ∷ es) ≡ delivered fd es
      taken_off fd bs es = delivered_received fd target_fd bs es

      sending :
          {X : Type 0} (view : List Event → X)
          → ((bs : List ℕ) (es : List Event) → view (received target_fd bs ∷ es) ≡ view es)
          → (v : World)
          → v.writes
            ≡ ok (length redirect_request) ∷ ok (length moved) ∷ ok (length (joined chunks)) ∷ []
          → v.reads ≡ arrive chunks ++ (ok [] ∷ [])
          → let (r, w') = send_req target_fd redirect_request v in
            (r ≡ done (joined chunks))
            × (view w'.trace ≡ view (sent target_fd redirect_request ∷ v.trace))
            × (w'.writes ≡ ok (length moved) ∷ ok (length (joined chunks)) ∷ [])
      sending view ignored v h k = send_req-whole view target_fd _ _ chunks v h k full fits ignored

  -- If the client's request is shorter than the buffer and its host is blocked, the page's host is
  -- not blocked, resolves and gets a socket of its own, which takes the request whole and answers in
  -- chunks that stay below the size of the array before it closes, and the client's socket takes
  -- each message whole, then the round ends, the program has contacted the page's host alone and
  -- given it the request for the page, the client has been given the 301 message and the whole
  -- answer, and its descriptor was closed once.
  pub main_round-Answered :
      (w : World) (bs host : List ℕ)
      → w.reads ≡ ok bs ∷ (arrive chunks ++ (ok [] ∷ []))
      → w.writes
        ≡ ok 0 ∷ ok (length redirect_request) ∷ ok (length moved) ∷ ok (length (joined chunks)) ∷ []
      → length bs < 2048
      → request_host (bs ++ (0 ∷ [])) ≡ done host
      → is_blocked block_arr host ≡ true
      → Answered client_fd target_fd chunks w (main_round net block_arr client_fd w)
  unfolding main_round request_text parse_req act_on contacts closings delivered
  main_round-Answered w bs host k h short parsed stop =
      let w₁ : World = record w {
        reads = arrive chunks ++ (ok [] ∷ []);
        trace = received client_fd bs ∷ w.trace;
      } in
      let answered = turn_down-Answered w₁ h refl in
      rw (read_ok client_fd w k) (rw (lt→ltb (length bs) 2048 short) (rw parsed (rw stop answered)))
