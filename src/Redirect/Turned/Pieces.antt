-- ===== src/Redirect/Turned/Pieces.antt =====
-- The calls of `turn_down`: `sendReq` over a peer that answers in chunks, and the writes to the client.
use proxy.Base.{
  ℕ, zero, suc, ◌+◌, ◌<◌, ◌≡◌, refl, ap, ◌∙◌, ◌≢◌, false, List, [], ◌∷◌, ◌++◌, append-nil,
  append_assoc, arith, bytes, length, ltb, take, take_all, Bool-cases, inl, inr, ◌-◌,
}
use proxy.CString.{c_str, strstr, starts_with, isspace}
use proxy.Sys.{
  Reply, ok, interrupted, failed, Event, sent, received, connecting, closed, emit, World, Outcome,
  done, M, ◌>>=◌, write, delivered, closings,
}
use proxy.Sys.Laws.{delivered_other, write_ok, delivered_sent}
use proxy.SslRedirect.Forward.{joined, arrive}
use proxy.Redirect.{
  request_host, scan_host, check_length, step_back, send_from, receive_from, response_size,
  send_req, redirect_request, moved,
}
use proxy.Redirect.Sending.{Full, receive_from-joined}

-- The host of the page that a blocked client is sent to.
abbrev pub page_host : List ℕ
page_host = bytes "cs241.cs.illinois.edu"

-- The run makes no write, and the view does not change.
abbrev Quiet : {X A : Type 0} → (List Event → X) → World → Outcome A × World → Type 0
Quiet view w (r, w') = (view w'.trace ≡ view w.trace) × (w'.writes ≡ w.writes)

step_back-Quiet :
    {X A : Type 0} (view : List Event → X) (n : ℕ) (continue : ℕ → M A) (w : World)
    → ((k : ℕ) → Quiet view w (continue k w))
    → Quiet view w (step_back n continue w)
step_back-Quiet view zero continue w quiet = (refl, refl)
step_back-Quiet view (suc n) continue w quiet = quiet n

module _ (sockfd : ℕ) {X : Type 0} (view : List Event → X)
    (ignored : (bs : List ℕ) (es : List Event) → view (received sockfd bs ∷ es) ≡ view es) where
  receive_from-Quiet :
      (got : List ℕ) (rs : List (Reply (List ℕ))) (w : World)
      → Quiet view w (receive_from sockfd got rs w)
  unfolding receive_from
  receive_from-Quiet got [] w = (refl, refl)
  receive_from-Quiet got (ok [] ∷ rs) w = (refl, refl)
  receive_from-Quiet got (ok (b ∷ bs) ∷ rs) w =
      let chunk = take (response_size - length got) (b ∷ bs) in
      let w₁ : World = record w { trace = received sockfd chunk ∷ w.trace } in
      elim (Bool-cases (ltb (length (got ++ chunk)) response_size)) [
        | inl e ↦ rw e (
            let (same, writes) = receive_from-Quiet (got ++ chunk) rs w₁ in
            (same ∙ ignored chunk w.trace, writes))
        | inr e ↦ rw e (ignored chunk w.trace, refl)
      ]
  receive_from-Quiet got (interrupted ∷ rs) w =
      step_back-Quiet view (length got) (λ k. receive_from sockfd (take k got) rs) w
        (λ k. receive_from-Quiet (take k got) rs w)
  receive_from-Quiet got (failed ∷ rs) w =
      step_back-Quiet view (length got) (λ k. receive_from sockfd (take k got) rs) w
        (λ k. receive_from-Quiet (take k got) rs w)

pub page_request : request_host redirect_request ≡ done page_host
unfolding request_host c_str strstr starts_with scan_host isspace check_length
page_request = refl

-- `sendReq` over a socket that takes the request whole, to a peer that answers in chunks and closes.
pub send_req-whole :
    {X : Type 0} (view : List Event → X) (target_fd b : ℕ) (req' : List ℕ) (chunks : List (List ℕ))
    (w : World) {ws : List (Reply ℕ)}
    → let req = b ∷ req' in
      w.writes ≡ ok (length req) ∷ ws
      → w.reads ≡ arrive chunks ++ (ok [] ∷ [])
      → Full chunks
      → length (joined chunks) < response_size
      → ((bs : List ℕ) (es : List Event) → view (received target_fd bs ∷ es) ≡ view es)
      → let (r, w') = send_req target_fd (b ∷ req') w in
        (r ≡ done (joined chunks))
        × (view w'.trace ≡ view (sent target_fd (b ∷ req') ∷ w.trace))
        × (w'.writes ≡ ws)
unfolding send_req send_from
send_req-whole view target_fd b req' chunks w {ws} h k full fits ignored =
    let req = b ∷ req' in
    let w₁ : World = record w {
      writes = ws;
      trace = sent target_fd (take (length req) req) ∷ w.trace;
    } in
    let stop : ltb (0 + length req) (length req) ≡ false = ground arith in
    let (same, writes) = receive_from-Quiet target_fd view ignored [] w.reads w₁ in
    rw h (
      rw stop (
        ap (λ rs. (receive_from target_fd [] rs w₁).0) k
            ∙ receive_from-joined target_fd [] chunks w₁ full fits,
        same
            ∙ ap (λ t. view (sent target_fd t ∷ w.trace)) (take_all (length req) req (omega arith)),
        writes,
      ))

-- The two writes to the client, which takes them whole, and the end of its connection.
pub pass_back :
    (client_fd : ℕ) (page : List ℕ) (v : World)
    → v.writes ≡ ok (length moved) ∷ ok (length page) ∷ []
    → (write client_fd moved >>= λ r. write client_fd page >>= λ rv. emit (closed client_fd)) v ≡ (
      done tt,
      record v {
        writes = [];
        trace = closed client_fd ∷ sent client_fd page ∷ sent client_fd moved ∷ v.trace;
      },
    )
pass_back client_fd page v h =
    let v₁ : World = record v {
      writes = ok (length page) ∷ [];
      trace = sent client_fd moved ∷ v.trace;
    } in
    let whole : take (length page) page ≡ page = take_all (length page) page (omega arith) in
    rw (write_ok client_fd moved v h) (rw (write_ok client_fd page v₁ refl) (rw whole refl))

-- What the two writes add for the client, and for another peer.
pub passed_client :
    (fd : ℕ) (page : List ℕ) (es : List Event)
    → delivered fd (closed fd ∷ sent fd page ∷ sent fd moved ∷ es)
      ≡ delivered fd es ++ (moved ++ page)
unfolding delivered
passed_client fd page es =
    delivered_sent fd page (sent fd moved ∷ es)
    ∙ ap (λ t. t ++ page) (delivered_sent fd moved es)
    ∙ append_assoc (delivered fd es) moved page

pub passed_other :
    (fd g : ℕ) (page : List ℕ) (es : List Event)
    → g ≢ fd
    → delivered fd (closed g ∷ sent g page ∷ sent g moved ∷ es) ≡ delivered fd es
unfolding delivered
passed_other fd g page es ne =
    delivered_other fd g page (sent g moved ∷ es) ne ∙ delivered_other fd g moved es ne

-- Nothing of a write of no bytes arrives.
pub delivered_nothing :
    (fd g : ℕ) (host port : List ℕ) (es : List Event)
    → delivered fd (connecting host port ∷ sent g [] ∷ es) ≡ delivered fd es
unfolding delivered
delivered_nothing fd g host port es = ground (arith, append-nil (delivered fd es))

pub closed_again :
    (fd : ℕ) (page : List ℕ) (es : List Event)
    → closings fd (closed fd ∷ sent fd page ∷ sent fd moved ∷ es) ≡ closings fd es + 1
unfolding closings
closed_again fd page es = ground arith
