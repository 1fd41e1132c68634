-- ===== src/OldServer/Answer.antt =====
-- What old_server.c cuts out of the child's output.
use proxy.Base.{
  ℕ, ◌-◌, ◌≤◌, ◌≡◌, refl, sym, ap, ◌∙◌, none, some, Option, inl, inr, List, [], ◌∷◌, ◌++◌, arith,
  if◌then◌else◌, subst, length, take, drop, leb, ltb, length-append, take-length-append,
  append_assoc, Bool-cases, Option-cases,
}
use proxy.CString.{c_str, strstr, ptr_diff}
use proxy.CString.Laws.{strstr_split}
use proxy.Sys.{World, done, undefined, received, taken, deref}
use proxy.Sys.Laws.{taken_received, deref-done, and_then-done, done-injective}
use proxy.Utils.{crlf}
use proxy.SslRedirect.Forward.{arrive}
use proxy.OldServer.{
  find_end, find_start, find_answer, ok_line, session_end, cut_body, collect_from, buffer_size,
}

-- The longer of two suffixes of a text ends in the shorter.
suffix_of_suffix :
    (s t e : List ℕ) (x y : List ℕ)
    → s ≡ x ++ e
    → s ≡ y ++ t
    → length e ≤ length t
    → t ≡ take (length t - length e) t ++ e
suffix_of_suffix s t e x [] p q le =
    let same : t ≡ x ++ e = sym q ∙ p in
    let size : length t - length e ≡ length x = omega (arith, ap length same, length-append x e) in
    rw size
      (same ∙ ap (λ l. l ++ e) (sym (take-length-append x e) ∙ ap (take (length x)) (sym same)))
suffix_of_suffix s t e [] (b ∷ y) p q le =
    absurd (omega (arith, ap length (sym p ∙ q), length-append y t))
suffix_of_suffix s t e (a ∷ x) (b ∷ y) p q le =
    suffix_of_suffix (x ++ e) t e x y refl (tails (sym p ∙ q)) le
  where
    tails : a ∷ (x ++ e) ≡ b ∷ (y ++ t) → x ++ e ≡ y ++ t
    tails h = ap (drop 1) h

-- The body stands in the text between the first blank line after "200 OK" and the line that
-- openssl prints after the page.
pub record Answer (text body : List ℕ) : Type 0 where
  pub before : List ℕ
  pub head : List ℕ
  pub after : List ℕ
  pub is_cut : text ≡ before ++ (head ++ ((crlf ++ crlf) ++ (body ++ after)))
  pub is_ok : strstr text ok_line ≡ some (head ++ ((crlf ++ crlf) ++ (body ++ after)))
  pub is_first :
      strstr (head ++ ((crlf ++ crlf) ++ (body ++ after))) (crlf ++ crlf)
      ≡ some ((crlf ++ crlf) ++ (body ++ after))
  pub is_end : strstr (head ++ ((crlf ++ crlf) ++ (body ++ after))) session_end ≡ some after

body_at :
    (res_end rest body : List ℕ)
    → (if leb (length res_end) (length rest)
        then done (take (ptr_diff res_end rest) rest)
        else undefined)
      ≡ done body
    → (length res_end ≤ length rest) × (take (length rest - length res_end) rest ≡ body)
body_at res_end rest body h = elim (Bool-cases (leb (length res_end) (length rest))) [
  | inl e ↦ (ground arith, done-injective (rw e at h))
  | inr e ↦ (let h' : undefined ≡ done body = rw e at h in cc)
]

parts-Answer :
    (text res_start res_end blank rest body before head x : List ℕ)
    → strstr text ok_line ≡ some res_start
    → strstr res_start session_end ≡ some res_end
    → strstr res_start (crlf ++ crlf) ≡ some blank
    → text ≡ before ++ res_start
    → res_start ≡ x ++ res_end
    → res_start ≡ head ++ blank
    → blank ≡ (crlf ++ crlf) ++ rest
    → length res_end ≤ length rest
    → take (length rest - length res_end) rest ≡ body
    → Answer text body
parts-Answer text res_start res_end blank rest body before head x is_ok is_end is_first text_split
      end_split blank_split blank_start le cut =
    let start : res_start ≡ (head ++ (crlf ++ crlf)) ++ rest =
      blank_split ∙ ap (λ l. head ++ l) blank_start ∙ sym (append_assoc head (crlf ++ crlf) rest) in
    let rest_split : rest ≡ body ++ res_end =
      suffix_of_suffix res_start rest res_end x (head ++ (crlf ++ crlf)) end_split start le
      ∙ ap (λ l. l ++ res_end) cut in
    let blank_cut : blank ≡ (crlf ++ crlf) ++ (body ++ res_end) =
      blank_start ∙ ap (λ l. (crlf ++ crlf) ++ l) rest_split in
    let whole : res_start ≡ head ++ ((crlf ++ crlf) ++ (body ++ res_end)) =
      blank_split ∙ ap (λ l. head ++ l) blank_cut in
    record {
      before = before;
      head = head;
      after = res_end;
      is_cut = text_split ∙ ap (λ l. before ++ l) whole;
      is_ok = is_ok ∙ ap some whole;
      is_first =
          subst (λ l. strstr l (crlf ++ crlf) ≡ some ((crlf ++ crlf) ++ (body ++ res_end))) whole
            (is_first ∙ ap some blank_cut);
      is_end = subst (λ l. strstr l session_end ≡ some res_end) whole is_end;
    }

pub cut_body-Answer :
    (text res_start res_end body : List ℕ)
    → strstr text ok_line ≡ some res_start
    → strstr res_start session_end ≡ some res_end
    → cut_body (res_start, res_end) ≡ done body
    → Answer text body
unfolding cut_body
cut_body-Answer text res_start res_end body is_ok is_end h =
    let (blank, b, h₁) = and_then-done (deref (strstr res_start (crlf ++ crlf))) _ h in
    let is_first = deref-done (strstr res_start (crlf ++ crlf)) b in
    let (before, t₁, text_split, s₁) = strstr_split text ok_line is_ok in
    let (x, t₂, end_split, s₂) = strstr_split res_start session_end is_end in
    let (head, rest, blank_split, s₃) = strstr_split res_start (crlf ++ crlf) is_first in
    let after_blank : drop 4 blank ≡ rest = ap (drop 4) s₃ in
    let (le, cut) = body_at res_end rest body (
      subst
        (λ l.
          (if leb (length res_end) (length l)
            then done (take (ptr_diff res_end l) l)
            else undefined)
          ≡ done body)
        after_blank h₁) in
    parts-Answer text res_start res_end blank rest body before head x is_ok is_end is_first
      text_split end_split blank_split s₃ le cut

find_end-some :
    (s : List ℕ) (o : Option (List ℕ)) {p : List ℕ × List ℕ}
    → find_end s o ≡ some p
    → (s ≡ p.0) × (o ≡ some p.1)
find_end-some s none h = cc
find_end-some s (some e) h = (cc, cc)

pub find_start-some :
    (o : Option (List ℕ)) {p : List ℕ × List ℕ}
    → find_start o ≡ some p
    → (o ≡ some p.0) × (strstr p.0 session_end ≡ some p.1)
find_start-some none h = cc
find_start-some (some s) {p} h =
    let (start, end) = find_end-some s (strstr s session_end) h in
    (ap some start, subst (λ l. strstr l session_end ≡ some p.1) start end)

-- What the second loop has found stands in the bytes that it took from the pipe.
module _ (from_ssl : ℕ) where
  pub collect_from-found :
      (got : List ℕ) (chunks : List (List ℕ)) (w : World) {p : List ℕ × List ℕ}
      → (collect_from from_ssl got (arrive chunks) w).0 ≡ done p
      → (page : List ℕ) × (find_answer (c_str (got ++ page)) ≡ some p)
        × (taken from_ssl (collect_from from_ssl got (arrive chunks) w).1.trace
            ≡ taken from_ssl w.trace ++ page)
  unfolding collect_from
  collect_from-found got [] w h = cc
  collect_from-found got (bs ∷ chunks) w {p} h =
      elim (Bool-cases (ltb (length (got ++ bs)) buffer_size)) [
        | inr over ↦ (let h' : undefined ≡ done p = rw over at h in cc)
        | inl fits ↦ elim (Option-cases (find_answer (c_str (got ++ bs)))) [
          | inl more ↦
              let h' : (collect_from from_ssl (got ++ bs) (arrive chunks) w₁).0 ≡ done p =
                rw (fits, more) at h in
              let (page, found, all) = collect_from-found (got ++ bs) chunks w₁ h' in
              rw fits (
                rw more (
                  bs ++ page,
                  ap (λ l. find_answer (c_str l)) (sym (append_assoc got bs page)) ∙ found,
                  all
                      ∙ ap (λ l. l ++ page) (taken_received from_ssl bs w.trace)
                      ∙ append_assoc (taken from_ssl w.trace) bs page,
                ))
          | inr (q, e) ↦ rw fits (
              rw e (
                bs,
                e ∙ ap some (done-injective (rw (fits, e) at h)),
                taken_received from_ssl bs w.trace,
              ))
        ]
      ]
    where
      w₁ : World
      w₁ = record w { trace = received from_ssl bs ∷ w.trace }
