-- ===== src/Utils/Ends.antt =====
-- `write_all_to_socket` comes to its end once the kernel answers.
use proxy.Base.{
  ℕ, ◌+◌, ◌-◌, ◌≤◌, ◌≡◌, ◌==◌, refl, subst, inl, inr, List, [], ◌∷◌, arith, length, ltb, Bool-cases,
  drop, take,
}
use proxy.Base.Int.{ℤ}
use proxy.Sys.{Reply, ok, interrupted, failed, World, Outcome, done, sent}
use proxy.Sys.Answers.{answers}
use proxy.Utils.{write_from, write_all_to_socket}

-- The call has returned, has used up `used` answers at most, and has read nothing.
abbrev pub Returns : ℕ → List (Reply ℕ) → World → Outcome ℤ × World → Type 0
Returns used rs w (r, w') =
    ((z : ℤ) × (r ≡ done z)) × (answers rs ≤ answers w'.writes + used) × (w'.reads ≡ w.reads)

module _ (socket : ℕ) (buffer : List ℕ) where
  write_from-Returns :
      (attempt : ℕ) (rs : List (Reply ℕ)) (w : World)
      → length buffer ≤ attempt + answers rs
      → Returns (length buffer - attempt) rs w (write_from socket buffer attempt rs w)
  unfolding write_from answers
  write_from-Returns attempt [] w enough = elim (Bool-cases (ltb attempt (length buffer))) [
    | inl e ↦ absurd (ground arith)
    | inr e ↦ rw e ((_, refl), omega arith, refl)
  ]
  write_from-Returns attempt (ok n ∷ rs) w enough =
      elim (Bool-cases (ltb attempt (length buffer))) [
        | inr e ↦ rw e ((_, refl), omega arith, refl)
        | inl e ↦ rw e (elim (Bool-cases (n == 0)) [
          | inl z ↦ rw z ((_, refl), ground arith, refl)
          | inr more ↦ rw more (
              let (result, used, same) =
                write_from-Returns (attempt + n) rs
                  (record w { trace = sent socket (take n (drop attempt buffer)) ∷ w.trace })
                  (ground arith) in
              (result, ground arith, same))
        ])
      ]
  write_from-Returns attempt (interrupted ∷ rs) w enough =
      elim (Bool-cases (ltb attempt (length buffer))) [
        | inl e ↦ rw e (write_from-Returns attempt rs w enough)
        | inr e ↦ rw e ((_, refl), omega arith, refl)
      ]
  write_from-Returns attempt (failed ∷ rs) w enough =
      elim (Bool-cases (ltb attempt (length buffer))) [
        | inl e ↦ rw e ((_, refl), ground arith, refl)
        | inr e ↦ rw e ((_, refl), omega arith, refl)
      ]

  -- A call returns if the kernel gives an answer for each byte.
  pub write_all_to_socket-Returns :
      (w : World)
      → length buffer ≤ answers w.writes
      → Returns (length buffer) w.writes w (write_all_to_socket socket buffer w)
  unfolding write_all_to_socket
  write_all_to_socket-Returns w enough =
      let all : length buffer - 0 ≡ length buffer = omega arith in
      subst (λ k. Returns k w.writes w (write_from socket buffer 0 w.writes w)) all
        (write_from-Returns 0 w.writes w (omega arith))
