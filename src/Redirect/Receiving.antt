-- ===== src/Redirect/Receiving.antt =====
-- The array of the response in `sendReq`.
use proxy.Base.{
  ℕ, zero, suc, ◌+◌, ◌-◌, ◌≤◌, ◌<◌, ◌≡◌, refl, subst, sym, ap, ◌∙◌, List, [], ◌∷◌, ◌++◌, arith,
  length, take, take_all, append_assoc, length-append, length-take, Bool-cases, inl, inr, ltb,
}
use proxy.Sys.{Reply, ok, interrupted, failed, received, World, done, M, sent, resume}
use proxy.SslRedirect.Forward.{joined, arrive}
use proxy.Base.{drop}
use proxy.Redirect.{send_from, send_req, receive_from, response_size, step_back}
use proxy.Redirect.Sending.{Full, Steady, send_from-Steady}

module _ {A : Type 0} where
  take-append_past :
      (n : ℕ) (xs ys : List A) → length xs ≤ n → take n (xs ++ ys) ≡ xs ++ take (n - length xs) ys
  take-append_past n [] ys h = let e : n - 0 ≡ n = omega arith in rw e
  take-append_past zero (x ∷ xs) ys h = absurd (omega arith)
  take-append_past (suc n) (x ∷ xs) ys h =
      let e : suc n - suc (length xs) ≡ n - length xs = omega arith in
      rw e (ap (λ t. x ∷ t) (take-append_past n xs ys (omega arith)))

  take-append_within : (n : ℕ) (xs ys : List A) → n ≤ length xs → take n (xs ++ ys) ≡ take n xs
  take-append_within zero xs ys h = refl
  take-append_within (suc n) [] ys h = absurd (omega arith)
  take-append_within (suc n) (x ∷ xs) ys h =
      ap (λ t. x ∷ t) (take-append_within n xs ys (omega arith))

module _ (sockfd : ℕ) where
  -- Chunks that would fill the array leave its first `response_size` bytes.
  receive_from-filled :
      (got : List ℕ) (chunks : List (List ℕ)) (rs : List (Reply (List ℕ))) (w : World)
      → Full chunks
      → length got < response_size
      → response_size ≤ length (got ++ joined chunks)
      → (receive_from sockfd got (arrive chunks ++ rs) w).0
        ≡ done (take response_size (got ++ joined chunks))
  unfolding receive_from
  receive_from-filled got [] rs w full more enough =
      absurd (omega (arith, more, enough, length-append got []))
  receive_from-filled got ([] ∷ cs) rs w (p, full) more enough = absurd (omega arith)
  receive_from-filled got ((b ∷ bs) ∷ cs) rs w (p, full) more enough =
      let room = response_size - length got in
      let chunk = take room (b ∷ bs) in
      let w₁ : World = record w { trace = received sockfd chunk ∷ w.trace } in
      let taken = length-take room (b ∷ bs) in
      let all = length-append got chunk in
      elim (Bool-cases (ltb (length (got ++ chunk)) response_size)) [
        | inl less ↦
            let below : length (got ++ chunk) < response_size = ground arith in
            let whole : chunk ≡ b ∷ bs =
              take_all room (b ∷ bs) (omega (arith, below, all, taken)) in
            let regroup : (got ++ chunk) ++ joined cs ≡ got ++ ((b ∷ bs) ++ joined cs) =
              append_assoc got chunk (joined cs) ∙ ap (λ c. got ++ (c ++ joined cs)) whole in
            rw less (
              receive_from-filled (got ++ chunk) cs rs w₁ full below
                (subst (λ l. response_size ≤ length l) (sym regroup) enough)
              ∙ ap (λ l. done (take response_size l)) regroup)
        | inr filled ↦
            let reached : response_size ≤ length (got ++ chunk) = ground arith in
            let cut : take response_size (got ++ ((b ∷ bs) ++ joined cs)) ≡ got ++ chunk =
              take-append_past response_size got ((b ∷ bs) ++ joined cs) (omega arith)
              ∙ ap (λ t. got ++ t)
                  (take-append_within room (b ∷ bs) (joined cs)
                    (omega (arith, reached, all, taken))) in
            rw filled (ap done (sym cut))
      ]

-- The loop that sends makes no read.
step_back-reads :
    {A : Type 0} (n : ℕ) (continue : ℕ → M A) (w : World)
    → ((k : ℕ) → (continue k w).1.reads ≡ w.reads)
    → (step_back n continue w).1.reads ≡ w.reads
step_back-reads zero continue w go = refl
step_back-reads (suc n) continue w go = go n

send_from-reads :
    (sockfd : ℕ) (req : List ℕ) (at : ℕ) (rs : List (Reply ℕ)) (w : World)
    → (send_from sockfd req at rs w).1.reads ≡ w.reads
unfolding send_from
send_from-reads sockfd req at [] w = refl
send_from-reads sockfd req at (ok zero ∷ rs) w = refl
send_from-reads sockfd req at (ok (suc n) ∷ rs) w =
    let w₁ : World = record w { trace = sent sockfd (take (suc n) (drop at req)) ∷ w.trace } in
    elim (Bool-cases (ltb (at + suc n) (length req))) [
      | inl more ↦ rw more (send_from-reads sockfd req (at + suc n) rs w₁)
      | inr all ↦ rw all refl
    ]
send_from-reads sockfd req at (interrupted ∷ rs) w =
    step_back-reads at (λ k. send_from sockfd req k rs) w (λ k. send_from-reads sockfd req k rs w)
send_from-reads sockfd req at (failed ∷ rs) w =
    step_back-reads at (λ k. send_from sockfd req k rs) w (λ k. send_from-reads sockfd req k rs w)

-- If the request is not empty and the writes take all of it, and the peer sends in chunks that are
-- not empty at least as many bytes as the array takes, then `sendReq` returns with exactly as many of
-- the first of them, one less than the array has, whatever would come after them.
pub send_req-fits :
    (sockfd : ℕ) (req : List ℕ) (chunks : List (List ℕ)) (rs : List (Reply (List ℕ))) (w : World)
    → 0 < length req
    → Steady (length req) w.writes
    → w.reads ≡ arrive chunks ++ rs
    → Full chunks
    → response_size ≤ length (joined chunks)
    → (send_req sockfd req w).0 ≡ done (take response_size (joined chunks))
unfolding send_req
send_req-fits sockfd req chunks rs w more steady comes full enough =
    let (r, w₁) = send_from sockfd req 0 w.writes w in
    let (ended, _) = send_from-Steady sockfd req w more steady in
    let reads = send_from-reads sockfd req 0 w.writes w ∙ comes in
    ap (λ o. (resume o w₁ (λ z v. receive_from sockfd [] v.reads v)).0) ended
    ∙ ap (λ k. (receive_from sockfd [] k w₁).0) reads
    ∙ receive_from-filled sockfd [] chunks rs w₁ full (omega arith) enough
