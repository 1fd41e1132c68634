-- ===== src/Utils/Read.antt =====
-- What `read_all_from_socket` puts into the buffer, on every script of replies.
use proxy.Base.{
  ℕ, ◌+◌, ◌-◌, ◌≤◌, ◌≡◌, refl, sym, ◌∙◌, ◌⊎◌, inl, inr, List, [], ◌∷◌, ◌++◌, append-nil,
  append_assoc, arith, ◌==◌, ltb, length, length-append, Bool-cases,
}
use proxy.Base.Int.{ℤ, pos, negsuc}
use proxy.Sys.{Reply, ok, interrupted, failed, World, Outcome, done, blocked, taken, received}
use proxy.Sys.Laws.{taken_received}
use proxy.Utils.{read_from, read_all_from_socket}

-- What a call that ends leaves: the buffer holds what came from the peer, and the result is its
-- length, or -1.
abbrev pub Filled : ℕ → List ℕ → Outcome (ℤ × List ℕ) × World → Type 0
Filled socket start (r, w') =
    (buffer : List ℕ) × (taken socket w'.trace ≡ start ++ buffer)
    × ((r ≡ done (pos (length buffer), buffer)) ⊎ ((r ≡ done (negsuc 0, buffer)) ⊎ (r ≡ blocked)))

-- `read` gives no more than it is asked for: `left` bytes are still wanted.
abbrev pub Honest : ℕ → List (Reply (List ℕ)) → Type 0
Honest left [] = Unit {0}
Honest left (ok bs ∷ rs) = (length bs ≤ left) × Honest (left - length bs) rs
Honest left (interrupted ∷ rs) = Honest left rs
Honest left (failed ∷ rs) = Honest left rs

module _ (socket count : ℕ) where
  read_from-Filled :
      (start buffer : List ℕ) (rs : List (Reply (List ℕ))) (w : World)
      → taken socket w.trace ≡ start ++ buffer
      → Filled socket start (read_from socket count buffer rs w)
  unfolding read_from
  read_from-Filled start buffer [] w h = elim (Bool-cases (ltb (length buffer) count)) [
    | inl e ↦ rw e (buffer, h, inr (inr refl))
    | inr e ↦ rw e (buffer, h, inl refl)
  ]
  read_from-Filled start buffer (ok bs ∷ rs) w h = elim (Bool-cases (ltb (length buffer) count)) [
    | inr e ↦ rw e (buffer, h, inl refl)
    | inl e ↦ rw e (elim (Bool-cases (length bs == 0)) [
      | inl z ↦ rw z (buffer, h, inl refl)
      | inr p ↦ rw p (
          read_from-Filled start (buffer ++ bs) rs
            (record w { trace = received socket bs ∷ w.trace })
            (taken_received socket bs w.trace ∙ rw h (append_assoc start buffer bs)))
    ])
  ]
  read_from-Filled start buffer (interrupted ∷ rs) w h =
      elim (Bool-cases (ltb (length buffer) count)) [
        | inl e ↦ rw e (read_from-Filled start buffer rs w h)
        | inr e ↦ rw e (buffer, h, inl refl)
      ]
  read_from-Filled start buffer (failed ∷ rs) w h = elim (Bool-cases (ltb (length buffer) count)) [
    | inl e ↦ rw e (buffer, h, inr (inl refl))
    | inr e ↦ rw e (buffer, h, inl refl)
  ]

  -- A call that ends has put what came from the peer, in order, into the buffer, and returns its
  -- length, or -1 after an error.
  pub read_all_from_socket-Filled :
      (w : World) → Filled socket (taken socket w.trace) (read_all_from_socket socket count w)
  unfolding read_all_from_socket
  read_all_from_socket-Filled w =
      read_from-Filled (taken socket w.trace) [] w.reads w (sym (append-nil _))

  read_from-le :
      (buffer : List ℕ) (left : ℕ) (rs : List (Reply (List ℕ))) (w : World) (z : ℤ) (out : List ℕ)
      → length buffer + left ≡ count
      → Honest left rs
      → (read_from socket count buffer rs w).0 ≡ done (z, out)
      → length out ≤ count
  unfolding read_from
  read_from-le buffer left [] w z out e honest h = ground arith
  read_from-le buffer left (ok bs ∷ rs) w z out e (fits, honest) h =
      elim (Bool-cases (length bs == 0)) [
        | inl empty ↦ ground arith
        | inr p ↦ ground (
          arith,
          read_from-le (buffer ++ bs) (left - length bs) rs
              (record w { trace = received socket bs ∷ w.trace }) z out
              (omega (arith, length-append buffer bs)) honest,
        )
      ]
  read_from-le buffer left (interrupted ∷ rs) w z out e honest h =
      ground (arith, read_from-le buffer left rs w z out e honest)
  read_from-le buffer left (failed ∷ rs) w z out e honest h = ground arith

  -- If `read` gives no more than it is asked for, the call stays within the buffer's `count` bytes.
  pub read_all_from_socket-le :
      (w : World) {z : ℤ} {out : List ℕ}
      → Honest count w.reads
      → (read_all_from_socket socket count w).0 ≡ done (z, out)
      → length out ≤ count
  unfolding read_all_from_socket
  read_all_from_socket-le w {z} {out} honest h =
      read_from-le [] count w.reads w z out (omega arith) honest h
