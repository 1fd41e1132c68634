-- ===== src/Utils/Frames.antt =====
-- The socket loops of utils.c touch nothing but the bytes that go in and out.
use proxy.Base.{ℕ, ◌+◌, List, [], ◌∷◌, take, drop, arith, Bool-cases, ltb, length, ◌==◌, inl, inr}
use proxy.Sys.{Reply, ok, interrupted, failed, Event, sent}
use proxy.Sys.Frames.{Keeps, IgnoresIo, Preserves}
use proxy.Utils.{write_from, write_all_to_socket}

module _ {X : Type 0} (view : List Event → X) (socket : ℕ) (I : IgnoresIo socket view)
    (buffer : List ℕ) where
  write_from-Keeps :
      (attempt : ℕ) (rs : List (Reply ℕ)) → Keeps view (write_from socket buffer attempt rs)
  unfolding write_from
  write_from-Keeps attempt [] w = ground arith
  write_from-Keeps attempt (ok n ∷ rs) w = ground (
    arith,
    write_from-Keeps (attempt + n) rs
        (record w { trace = sent socket (take n (drop attempt buffer)) ∷ w.trace }),
    I.sent_ignored (take n (drop attempt buffer)) w.trace,
  )
  write_from-Keeps attempt (interrupted ∷ rs) w = ground (arith, write_from-Keeps attempt rs w)
  write_from-Keeps attempt (failed ∷ rs) w = ground arith

  pub write_all_to_socket-Keeps : Keeps view (write_all_to_socket socket buffer)
  unfolding write_all_to_socket
  write_all_to_socket-Keeps w = write_from-Keeps 0 w.writes w

-- What the bytes written keep, the loop keeps.
module _ (P : List Event → Type 0) (socket : ℕ)
    (keep : (bs : List ℕ) (es : List Event) → P es → P (sent socket bs ∷ es))
    (buffer : List ℕ) where
  write_from-Preserves :
      (attempt : ℕ) (rs : List (Reply ℕ)) → Preserves P (write_from socket buffer attempt rs)
  unfolding write_from
  write_from-Preserves attempt [] w h = elim (Bool-cases (ltb attempt (length buffer))) [
    | inl e ↦ rw e h
    | inr e ↦ rw e h
  ]
  write_from-Preserves attempt (ok n ∷ rs) w h = elim (Bool-cases (ltb attempt (length buffer))) [
    | inr e ↦ rw e h
    | inl e ↦ rw e (elim (Bool-cases (n == 0)) [
      | inl z ↦ rw z h
      | inr more ↦
          rw more (
            write_from-Preserves (attempt + n) rs _ (keep (take n (drop attempt buffer)) w.trace h))
    ])
  ]
  write_from-Preserves attempt (interrupted ∷ rs) w h =
      elim (Bool-cases (ltb attempt (length buffer))) [
        | inl e ↦ rw e (write_from-Preserves attempt rs w h)
        | inr e ↦ rw e h
      ]
  write_from-Preserves attempt (failed ∷ rs) w h = elim (Bool-cases (ltb attempt (length buffer))) [
    | inl e ↦ rw e h
    | inr e ↦ rw e h
  ]

  pub write_all_to_socket-Preserves : Preserves P (write_all_to_socket socket buffer)
  unfolding write_all_to_socket
  write_all_to_socket-Preserves w h = write_from-Preserves 0 w.writes w h
