-- ===== src/Redirect/Sending.antt =====
-- What `sendReq` sends and receives.
use proxy.Base.{
  ℕ, zero, suc, ◌+◌, ◌-◌, ◌≤◌, ◌<◌, ◌≡◌, refl, sym, ap, subst, lt→ltb, true, false, ◌∙◌, List, [],
  ◌∷◌, ◌++◌, arith, length, take, drop, take-add, take_all, length-append, length-drop, ltb,
  append_assoc, append-nil, Bool-cases, inl, inr,
}
use proxy.Sys.{Reply, ok, interrupted, failed, sent, received, World, done, delivered}
use proxy.Sys.Laws.{delivered_sent}
use proxy.SslRedirect.Forward.{joined, arrive}
use proxy.Redirect.{send_from, receive_from, response_size}

-- Replies that each take some bytes, and in all exactly those left.
abbrev pub Steady : ℕ → List (Reply ℕ) → Type 0
Steady left [] = left ≡ 0
Steady left (ok n ∷ rs) = (0 < n) × (n ≤ left) × Steady (left - n) rs
Steady left (interrupted ∷ rs) = ⊥
Steady left (failed ∷ rs) = ⊥

module _ (sockfd : ℕ) (req : List ℕ) where
  -- In pieces or at once, the peer is given the rest of the request.
  send_from-all :
      (start : List ℕ) (at left : ℕ) (rs : List (Reply ℕ)) (w : World)
      → at + left ≡ length req
      → 0 < left
      → Steady left rs
      → delivered sockfd w.trace ≡ start ++ take at req
      → let (r, w') = send_from sockfd req at rs w in
        (r ≡ done tt) × (delivered sockfd w'.trace ≡ start ++ req)
  unfolding send_from
  send_from-all start at left [] w e more s d = absurd (omega arith)
  send_from-all start at left (ok zero ∷ rs) w e more (p, q, s) d = absurd (omega arith)
  send_from-all start at left (ok (suc n) ∷ rs) w e more (p, q, s) d =
      let w₁ : World = record w { trace = sent sockfd (take (suc n) (drop at req)) ∷ w.trace } in
      let d₁ : delivered sockfd w₁.trace ≡ start ++ take (at + suc n) req =
        delivered_sent sockfd (take (suc n) (drop at req)) w.trace
        ∙ rw (d, take-add at (suc n) req) (append_assoc start (take at req) _) in
      elim (Bool-cases (ltb (at + suc n) (length req))) [
        | inl lt ↦ rw lt (
            send_from-all start (at + suc n) (left - suc n) rs w₁ (omega arith) (ground arith) s d₁)
        | inr ge ↦
            let whole : length req ≤ at + suc n = ground arith in
            rw ge (refl, d₁ ∙ ap (λ t. start ++ t) (take_all (at + suc n) req whole))
      ]
  send_from-all start at left (interrupted ∷ rs) w e more s d = absurd s
  send_from-all start at left (failed ∷ rs) w e more s d = absurd s

  -- If the first write takes `n` + 1 bytes, the second fails and the third takes the rest and one
  -- byte more, then the loop ends and the peer has been given a request in which the last byte of
  -- the first write stands twice.
  pub send_from-failed :
      (n m : ℕ) (w : World)
      → suc n + m ≡ length req
      → 0 < m
      → let (r, w') = send_from sockfd req 0 (ok (suc n) ∷ interrupted ∷ ok (suc m) ∷ []) w in
        (r ≡ done tt)
        × (delivered sockfd w'.trace ≡ delivered sockfd w.trace ++ (take (suc n) req ++ drop n req))
  unfolding send_from
  send_from-failed n m w e more =
      let first : 0 + suc n ≡ suc n = omega arith in
      let more_left : ltb (suc n) (length req) ≡ true = ground arith in
      let no_more : ltb (n + suc m) (length req) ≡ false = ground arith in
      let rest : take (suc m) (drop n req) ≡ drop n req =
        take_all (suc m) (drop n req) (omega (arith, length-drop n req)) in
      rw first (
        rw more_left (
          rw no_more (
            refl,
            rw (delivered_sent, delivered_sent, rest)
                (append_assoc _ (take (suc n) req) (drop n req)),
          )))

-- If no write fails and the writes add up to a request that is not empty, then the loop ends and
-- the peer has been given the request as a whole.
pub send_from-Steady :
    (sockfd : ℕ) (req : List ℕ) (w : World)
    → 0 < length req
    → Steady (length req) w.writes
    → let (r, w') = send_from sockfd req 0 w.writes w in
      (r ≡ done tt) × (delivered sockfd w'.trace ≡ delivered sockfd w.trace ++ req)
send_from-Steady sockfd req w more steady =
    send_from-all sockfd req (delivered sockfd w.trace) 0 (length req) w.writes w (omega arith) more
      steady (sym (append-nil _))

-- Chunks that are not empty.
abbrev pub Full : List (List ℕ) → Type 0
Full [] = Unit {0}
Full (c ∷ cs) = (0 < length c) × Full cs

-- If the chunks before the peer closes are not empty and stay with what is there below the size
-- of the array, then the loop returns all of them joined.
pub receive_from-joined :
    (sockfd : ℕ) (got : List ℕ) (chunks : List (List ℕ)) (w : World)
    → Full chunks
    → length (got ++ joined chunks) < response_size
    → (receive_from sockfd got (arrive chunks ++ (ok [] ∷ [])) w).0 ≡ done (got ++ joined chunks)
unfolding receive_from
receive_from-joined sockfd got [] w full fits = rw (append-nil got)
receive_from-joined sockfd got ([] ∷ cs) w (p, full) fits = absurd (omega arith)
receive_from-joined sockfd got ((b ∷ bs) ∷ cs) w (p, full) fits =
    let w₁ : World = record w { trace = received sockfd (b ∷ bs) ∷ w.trace } in
    let regroup = append_assoc got (b ∷ bs) (joined cs) in
    let fits' : length ((got ++ (b ∷ bs)) ++ joined cs) < response_size =
      subst (λ l. length l < response_size) (sym regroup) fits in
    let below : length (got ++ (b ∷ bs)) < response_size =
      omega (arith, fits', length-append (got ++ (b ∷ bs)) (joined cs)) in
    let room : ltb (length (got ++ (b ∷ bs))) response_size ≡ true = lt→ltb _ _ below in
    let whole : take (response_size - length got) (b ∷ bs) ≡ b ∷ bs =
      take_all (response_size - length got) (b ∷ bs)
        (omega (arith, below, length-append got (b ∷ bs))) in
    rw whole
      (rw room (receive_from-joined sockfd (got ++ (b ∷ bs)) cs w₁ full fits' ∙ ap done regroup))
