-- ===== src/Utils/Write.antt =====
-- What `write_all_to_socket` hands to the peer, on every script of replies.
use proxy.Base.{
  ℕ, ◌+◌, ◌-◌, ◌≤◌, ◌≡◌, refl, ap, sym, ◌∙◌, ◌≢◌, ◌⊎◌, inl, inr, false, List, [], ◌∷◌, ◌++◌,
  append-nil, append_assoc, arith, ◌==◌, ltb, length, take, drop, take-add, take_all, Bool-cases,
}
use proxy.Base.Int.{ℤ, pos, negsuc}
use proxy.Sys.{Reply, ok, interrupted, failed, World, Outcome, done, blocked, delivered, sent}
use proxy.Sys.Laws.{delivered_sent}
use proxy.Utils.{write_from, write_all_to_socket}

-- The three ways in which the loop ends, once `k` bytes are out.
abbrev pub Ends : ℕ → Outcome ℤ → Type 0
Ends k r = (r ≡ done (pos k)) ⊎ ((r ≡ done (negsuc 0)) ⊎ (r ≡ blocked))

module _ (socket : ℕ) (buffer : List ℕ) where
  -- `w` is the world at the call, of which `attempt` bytes are out.
  write_from-take :
      (start : List ℕ) (attempt : ℕ) (rs : List (Reply ℕ)) (w : World)
      → delivered socket w.trace ≡ start ++ take attempt buffer
      → let (r, w') = write_from socket buffer attempt rs w in
        (k : ℕ) × (delivered socket w'.trace ≡ start ++ take k buffer) × Ends k r
  unfolding write_from
  write_from-take start attempt [] w h = elim (Bool-cases (ltb attempt (length buffer))) [
    | inl e ↦ rw e (attempt, h, inr (inr refl))
    | inr e ↦ rw e (attempt, h, inl refl)
  ]
  write_from-take start attempt (ok n ∷ rs) w h = elim (Bool-cases (ltb attempt (length buffer))) [
    | inr e ↦ rw e (attempt, h, inl refl)
    | inl e ↦ rw e (elim (Bool-cases (n == 0)) [
      | inl z ↦ rw z (attempt, h, inl refl)
      | inr p ↦ rw p (
          write_from-take start (attempt + n) rs
            (record w { trace = sent socket (take n (drop attempt buffer)) ∷ w.trace })
            (delivered_sent socket (take n (drop attempt buffer)) w.trace
              ∙ rw (h, take-add attempt n buffer) (append_assoc start (take attempt buffer) _)))
    ])
  ]
  write_from-take start attempt (interrupted ∷ rs) w h =
      elim (Bool-cases (ltb attempt (length buffer))) [
        | inl e ↦ rw e (write_from-take start attempt rs w h)
        | inr e ↦ rw e (attempt, h, inl refl)
      ]
  write_from-take start attempt (failed ∷ rs) w h =
      elim (Bool-cases (ltb attempt (length buffer))) [
        | inl e ↦ rw e (attempt, h, inr (inl refl))
        | inr e ↦ rw e (attempt, h, inl refl)
      ]

  -- Whatever the kernel answers, the peer has been given the first `k` bytes of the buffer and
  -- nothing else; the call returns `k`, or -1, or is still waiting.
  pub write_all_to_socket-take :
      (w : World)
      → let (r, w') = write_all_to_socket socket buffer w in
        (k : ℕ) × (delivered socket w'.trace ≡ delivered socket w.trace ++ take k buffer) × Ends k r
  unfolding write_all_to_socket
  write_all_to_socket-take w =
      write_from-take (delivered socket w.trace) 0 w.writes w (sym (append-nil _))

-- No reply is a write of 0 bytes or an error other than EINTR.
abbrev pub Live : List (Reply ℕ) → Type 0
Live [] = Unit {0}
Live (ok n ∷ rs) = (n ≢ 0) × Live rs
Live (interrupted ∷ rs) = Live rs
Live (failed ∷ rs) = ⊥

-- The bytes that the replies take in all.
abbrev pub total : List (Reply ℕ) → ℕ
total [] = 0
total (ok n ∷ rs) = n + total rs
total (interrupted ∷ rs) = total rs
total (failed ∷ rs) = total rs

-- `write` takes no more than it is given: `left` bytes are not out yet.
abbrev pub Honest : ℕ → List (Reply ℕ) → Type 0
Honest left [] = Unit {0}
Honest left (ok n ∷ rs) = (n ≤ left) × Honest (left - n) rs
Honest left (interrupted ∷ rs) = Honest left rs
Honest left (failed ∷ rs) = Honest left rs

-- The replies without the interrupted calls.
abbrev pub uninterrupted : List (Reply ℕ) → List (Reply ℕ)
uninterrupted [] = []
uninterrupted (ok n ∷ rs) = ok n ∷ uninterrupted rs
uninterrupted (interrupted ∷ rs) = uninterrupted rs
uninterrupted (failed ∷ rs) = failed ∷ uninterrupted rs

module _ (socket : ℕ) (buffer : List ℕ) where
  write_from-all :
      (attempt left : ℕ) (rs : List (Reply ℕ)) (w : World)
      → attempt + left ≡ length buffer
      → Live rs
      → Honest left rs
      → left ≤ total rs
      → (write_from socket buffer attempt rs w).0 ≡ done (pos (length buffer))
  unfolding write_from
  write_from-all attempt left [] w e live honest enough = ground arith
  write_from-all attempt left (ok n ∷ rs) w e (ne, live) (fits, honest) enough = ground (
    arith,
    write_from-all (attempt + n) (left - n) rs
        (record w { trace = sent socket (take n (drop attempt buffer)) ∷ w.trace }) (omega arith)
        live honest (omega arith),
  )
  write_from-all attempt left (interrupted ∷ rs) w e live honest enough =
      ground (arith, write_from-all attempt left rs w e live honest enough)
  write_from-all attempt left (failed ∷ rs) w e live honest enough = absurd live

  -- If no reply is an error or a write of nothing, and the replies have room for the buffer, then
  -- the call returns the buffer's length and the peer has been given the whole buffer.
  pub write_all_to_socket-all :
      (w : World)
      → Live w.writes
      → Honest (length buffer) w.writes
      → length buffer ≤ total w.writes
      → let (r, w') = write_all_to_socket socket buffer w in
        (r ≡ done (pos (length buffer)))
        × (delivered socket w'.trace ≡ delivered socket w.trace ++ buffer)
  write_all_to_socket-all w live honest enough =
      let full : (write_all_to_socket socket buffer w).0 ≡ done (pos (length buffer)) =
        unfold write_all_to_socket in
        write_from-all 0 (length buffer) w.writes w (omega arith) live honest enough in
      let (k, out, ends) = write_all_to_socket-take socket buffer w in
      (full, out ∙ ap (λ t. delivered socket w.trace ++ t) (taken_all k (rw full at ends)))
    where
      taken_all : (k : ℕ) → Ends k (done (pos (length buffer))) → take k buffer ≡ buffer
      taken_all k (inl e) =
          let same : length buffer ≡ k = ground arith in take_all k buffer (omega arith)
      taken_all k (inr (inl e)) = ground arith
      taken_all k (inr (inr e)) = ground arith

  write_from_complete :
      (attempt : ℕ) (rs : List (Reply ℕ)) (w : World)
      → ltb attempt (length buffer) ≡ false
      → write_from socket buffer attempt rs w ≡ (done (pos attempt), record w { writes = rs })
  unfolding write_from
  write_from_complete attempt [] w e = rw e
  write_from_complete attempt (r ∷ rs) w e = rw e

  write_from-uninterrupted :
      (attempt : ℕ) (rs : List (Reply ℕ)) (w v : World)
      → w.trace ≡ v.trace
      → let (r, w') = write_from socket buffer attempt rs w in
        let (q, v') = write_from socket buffer attempt (uninterrupted rs) v in
        (r ≡ q) × (w'.trace ≡ v'.trace)
  unfolding write_from
  write_from-uninterrupted attempt [] w v h = ground arith
  write_from-uninterrupted attempt (ok n ∷ rs) w v h = ground (
    arith,
    write_from-uninterrupted (attempt + n) rs
        (record w { trace = sent socket (take n (drop attempt buffer)) ∷ w.trace })
        (record v { trace = sent socket (take n (drop attempt buffer)) ∷ v.trace }),
  )
  write_from-uninterrupted attempt (interrupted ∷ rs) w v h = ground (
    arith,
    write_from-uninterrupted attempt rs w v h,
    write_from_complete attempt (uninterrupted rs) v,
  )
  write_from-uninterrupted attempt (failed ∷ rs) w v h = ground arith

  -- A call interrupted by a signal is made again: interrupted writes change neither the result nor
  -- what the thread does.
  pub write_all_to_socket-uninterrupted :
      (w : World)
      → let (r, w') = write_all_to_socket socket buffer w in
        let (q, v) =
          write_all_to_socket socket buffer (record w { writes = uninterrupted w.writes }) in
        (r ≡ q) × (w'.trace ≡ v.trace)
  unfolding write_all_to_socket
  write_all_to_socket-uninterrupted w =
      write_from-uninterrupted 0 w.writes w (record w { writes = uninterrupted w.writes }) refl

write_from_at_once :
    (socket b : ℕ) (bs : List ℕ) (ws : List (Reply ℕ)) (w : World)
    → write_from socket (b ∷ bs) 0 (ok (length (b ∷ bs)) ∷ ws) w ≡ (
      done (pos (length (b ∷ bs))),
      record w { writes = ws; trace = sent socket (b ∷ bs) ∷ w.trace },
    )
unfolding write_from
write_from_at_once socket b bs ws w = ground (
  arith,
  write_from_complete socket (b ∷ bs) (0 + length (b ∷ bs)) ws
      (record w { trace = sent socket (take (length (b ∷ bs)) (b ∷ bs)) ∷ w.trace }),
  take_all (length (b ∷ bs)) (b ∷ bs),
)

-- A kernel that takes the buffer whole is asked once.
pub write_all_to_socket_at_once :
    (socket b : ℕ) (bs : List ℕ) (w : World) {ws : List (Reply ℕ)}
    → w.writes ≡ ok (length (b ∷ bs)) ∷ ws
    → write_all_to_socket socket (b ∷ bs) w ≡ (
      done (pos (length (b ∷ bs))),
      record w { writes = ws; trace = sent socket (b ∷ bs) ∷ w.trace },
    )
unfolding write_all_to_socket
write_all_to_socket_at_once socket b bs w {ws} h =
    ap (λ rs. write_from socket (b ∷ bs) 0 rs w) h ∙ write_from_at_once socket b bs ws w
