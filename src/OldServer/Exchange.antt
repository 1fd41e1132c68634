-- ===== src/OldServer/Exchange.antt =====
-- What `makeReq` of old_server.c returns.
use proxy.Base.{
  le→leb, ℕ, zero, suc, ◌+◌, ◌≤◌, ◌≡◌, refl, sym, ap, subst, ◌∙◌, Bool, true, false, some, none,
  arith, drop, append-nil, leb, inl, inr, ◌⊎◌, List, [], ◌∷◌, ◌++◌, if◌then◌else◌, length,
  append_assoc, Bool-cases, take_all, length-append,
}
use proxy.CString.{c_str, strstr}
use proxy.CString.Laws.{Lacks, array_str-Lacks}
use proxy.Sys.{
  Reply, ok, World, Outcome, done, blocked, aborted, undefined, exited, M, resume, received, taken,
  write,
}
use proxy.Sys.Laws.{taken_received, done-injective}
use proxy.Sys.Frames.{resume-done, write-taken}
use proxy.SslRedirect.Forward.{arrive}
use proxy.OldServer.{
  verified, ok_line, scan_array, put_at, end_verify, verify_from, collect_from, find_answer,
  buffer_size, cut_body, first_line, Child, wait_for, make_req,
}
use proxy.OldServer.Answer.{Answer, cut_body-Answer, find_start-some, collect_from-found}

end_verify-done :
    (buffer : List ℕ) (rs : List (Reply (List ℕ))) (rest : M (Unit {0})) (w : World)
    → (end_verify buffer rs rest w).0 ≡ done tt
    → ((scan_array buffer verified ≡ done true)
        × (end_verify buffer rs rest w ≡ (done tt, record w { reads = rs })))
      ⊎ (end_verify buffer rs rest w ≡ rest w)
end_verify-done buffer rs rest w h = go (scan_array buffer verified) h
  where
    go :
        (o : Outcome Bool)
        → (resume o w
            (λ found. if found then (λ v. (done tt, record v { reads = rs })) else rest)).0
          ≡ done tt
        → ((o ≡ done true)
            × (resume o w
                  (λ found. if found then (λ v. (done tt, record v { reads = rs })) else rest)
                ≡ (done tt, record w { reads = rs })))
          ⊎ (resume o w (λ found. if found then (λ v. (done tt, record v { reads = rs })) else rest)
              ≡ rest w)
    go (done true) h = inl (refl, refl)
    go (done false) h = inr refl
    go blocked h = cc
    go aborted h = cc
    go undefined h = cc
    go (exited n) h = cc

-- The bytes that came from the pipe since `w`, which with those before tell of the verification, and
-- the chunks that are still to come.
abbrev Took : ℕ → List ℕ → World → World → Type 0
Took fd buffer w v =
    (greeting : List ℕ) × (left : List (List ℕ)) × (v.reads ≡ arrive left)
    × (taken fd v.trace ≡ taken fd w.trace ++ greeting)
    × (scan_array (buffer ++ greeting) verified ≡ done true)

drop_past : (n : ℕ) (xs : List ℕ) → length xs ≤ n → drop n xs ≡ []
drop_past zero [] h = refl
drop_past zero (x ∷ xs) h = absurd (omega arith)
drop_past (suc n) [] h = refl
drop_past (suc n) (x ∷ xs) h = drop_past n xs (omega arith)

-- A read at the end of what was written adds to it.
put_at-end : (bs buffer : List ℕ) → put_at (length buffer) bs buffer ≡ buffer ++ bs
put_at-end bs buffer =
    ap (λ t. t ++ (bs ++ drop (length buffer + length bs) buffer))
      (take_all (length buffer) buffer (omega arith))
    ∙ ap (λ t. buffer ++ (bs ++ t)) (drop_past (length buffer + length bs) buffer (omega arith))
    ∙ ap (λ t. buffer ++ t) (append-nil bs)

module _ (fd : ℕ) where
  verify_from-Took :
      (buffer : List ℕ) (chunks : List (List ℕ)) (w : World)
      → (verify_from fd buffer (length buffer) (arrive chunks) w).0 ≡ done tt
      → Took fd buffer w (verify_from fd buffer (length buffer) (arrive chunks) w).1
  unfolding verify_from
  verify_from-Took buffer [] w h = cc
  verify_from-Took buffer (bs ∷ chunks) w h =
      elim (Bool-cases (leb (length buffer + length bs) buffer_size)) [
        | inr over ↦ (let h' : undefined ≡ done tt = rw over at h in cc)
        | inl fits ↦ rw fits (
            let h' : (end_verify stored (arrive chunks) rest w₁).0 ≡ done tt = rw fits at h in
            elim (end_verify-done stored (arrive chunks) rest w₁ h') [
              | inl (told, e) ↦ rw e (
                bs,
                chunks,
                refl,
                taken_received fd bs w.trace,
                ap (λ b. scan_array b verified) (sym (put_at-end bs buffer)) ∙ told,
              )
              | inr e ↦
                  rw (e, as_one)
                    (let (greeting, left, to_come, all, told) =
                        verify_from-Took (buffer ++ bs) chunks w₁
                          (ap (λ m. (m w₁).0) (sym as_one) ∙ ap (λ x. x.0) (sym e) ∙ h') in
                      (
                        bs ++ greeting,
                        left,
                        to_come,
                        all
                            ∙ ap (λ l. l ++ greeting) (taken_received fd bs w.trace)
                            ∙ append_assoc (taken fd w.trace) bs greeting,
                        ap (λ b. scan_array b verified) (sym (append_assoc buffer bs greeting))
                            ∙ told,
                      ))
            ])
      ]
    where
      w₁ : World
      w₁ = record w { trace = received fd bs ∷ w.trace }

      stored : List ℕ
      stored = put_at (length buffer) bs buffer

      rest : M (Unit {0})
      rest = verify_from fd stored (length buffer + length bs) (arrive chunks)

      as_one : rest ≡ verify_from fd (buffer ++ bs) (length (buffer ++ bs)) (arrive chunks)
      as_one =
          ap (λ b. verify_from fd b (length buffer + length bs) (arrive chunks))
            (put_at-end bs buffer)
          ∙ ap (λ n. verify_from fd (buffer ++ bs) n (arrive chunks))
              (sym (length-append buffer bs))

  verify-Took :
      (chunks : List (List ℕ)) (w : World)
      → w.reads ≡ arrive chunks
      → (verify_from fd [] 0 w.reads w).0 ≡ done tt
      → Took fd [] w (verify_from fd [] 0 w.reads w).1
  verify-Took chunks w coming =
      subst
        (λ rs. (verify_from fd [] 0 rs w).0 ≡ done tt → Took fd [] w (verify_from fd [] 0 rs w).1)
        (sym coming) (verify_from-Took [] chunks w)

  collect-found :
      (chunks : List (List ℕ)) (w : World) {p : List ℕ × List ℕ}
      → w.reads ≡ arrive chunks
      → (collect_from fd [] w.reads w).0 ≡ done p
      → (page : List ℕ) × (find_answer (c_str page) ≡ some p)
        × (taken fd (collect_from fd [] w.reads w).1.trace ≡ taken fd w.trace ++ page)
  collect-found chunks w {p} coming =
      subst
        (λ rs.
          (collect_from fd [] rs w).0 ≡ done p
          → (page : List ℕ) × (find_answer (c_str page) ≡ some p)
            × (taken fd (collect_from fd [] rs w).1.trace ≡ taken fd w.trace ++ page))
        (sym coming) (collect_from-found fd [] chunks w)

-- If the child's output comes without a failed read and `makeReq` returns a body, then the output was
-- read in two parts: the first one, as the text in its array, tells of the verification, and the body
-- was cut from the second one.
pub make_req-Answer :
    (child : Child) (client_header body : List ℕ) (chunks : List (List ℕ)) (w : World)
    → w.reads ≡ arrive chunks
    → (make_req child client_header w).0 ≡ done body
    → let w' = (make_req child client_header w).1 in
      (greeting : List ℕ) × (page : List ℕ) × (taken child.from_read w'.trace
        ≡ taken child.from_read w.trace ++ (greeting ++ page))
      × (scan_array greeting verified ≡ done true)
      × Answer (c_str page) body
unfolding make_req taken find_answer
make_req-Answer child client_header body chunks w coming h =
    let P : World → Type 0 = λ v.
      (greeting : List ℕ) × (page : List ℕ) × (taken child.from_read v.trace
        ≡ taken child.from_read w.trace ++ (greeting ++ page))
      × (scan_array greeting verified ≡ done true)
      × Answer (c_str page) body in
    let (r₁, w₁) = verify_from child.from_read [] 0 w.reads w in
    resume-done P r₁ w₁ _
      (λ _ verified_done h₁.
        let (greeting, left, to_come, greeted, told) =
          verify-Took child.from_read chunks w coming verified_done in
        resume-done P (first_line client_header) w₁ _
          (λ req _ h₂.
            let (r₂, w₂) = write child.to_write req w₁ in
            let (kept, same) = write-taken child.from_read child.to_write req w₁ in
            resume-done P r₂ w₂ _
              (λ _ _ h₃.
                let (r₃, w₃) = collect_from child.from_read [] w₂.reads w₂ in
                resume-done P r₃ w₃ _
                  (λ p collected h₄.
                    let (page, found, all) =
                      collect-found child.from_read left w₂ (same ∙ to_come) collected in
                    let (is_ok, is_end) = find_start-some (strstr (c_str page) ok_line) found in
                    resume-done P (cut_body p) w₃ _
                      (λ body' cut h₅.
                        resume-done P (wait_for child.ends) w₃ _
                          (λ _ _ h₆. (
                            greeting,
                            page,
                            all
                                ∙ ap (λ l. l ++ page) (kept ∙ greeted)
                                ∙ append_assoc (taken child.from_read w.trace) greeting page,
                            told,
                            subst (Answer (c_str page)) (done-injective h₆)
                                (cut_body-Answer (c_str page) p.0 p.1 body' is_ok is_end cut),
                          ))
                          h₅)
                      h₄)
                  h₃)
              h₂)
          h₁)
      h

scan_array-unset :
    (bs needle : List ℕ) → Lacks 0 bs → strstr bs needle ≡ none → scan_array bs needle ≡ undefined
scan_array-unset bs needle lacks absent = rw (scan_array, array_str-Lacks bs lacks) (rw absent refl)

drop_nil : (n : ℕ) → drop {A = ℕ} n [] ≡ []
drop_nil zero = refl
drop_nil (suc n) = refl

-- If the child's first output has no NUL and does not yet tell of the verification, then the search
-- goes on in the part of the array that was never written.
pub make_req-unset :
    (child : Child) (client_header bs : List ℕ) (w : World) {rs : List (Reply (List ℕ))}
    → w.reads ≡ ok bs ∷ rs
    → length bs ≤ buffer_size
    → Lacks 0 bs
    → strstr bs verified ≡ none
    → (make_req child client_header w).0 ≡ undefined
unfolding make_req verify_from
make_req-unset child client_header bs w h fits lacks absent =
    let same : put_at 0 bs [] ≡ bs = ap (λ l. bs ++ l) (drop_nil (0 + length bs)) ∙ append-nil bs in
    rw h (
      rw (le→leb (0 + length bs) buffer_size (omega arith))
        (rw same (rw (scan_array-unset bs verified lacks absent) refl)))
