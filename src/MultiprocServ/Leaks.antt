-- ===== src/MultiprocServ/Leaks.antt =====
-- The descriptors that a thread of multiproc_serv.c leaves open.
use proxy.Base.{
  ℕ, suc, ◌+◌, ◌≡◌, refl, ap, Bool-cases, inl, inr, Option, none, some, List, [], ◌∷◌, arith,
  length, bytes,
}
use proxy.Base.Int.{ℤ-cases}
use proxy.Sys.{
  Event, received, sent, connecting, spawned, shut_down, closed, World, done, contacts, read, write,
  deref,
}
use proxy.Sys.Laws.{done-injective}
use proxy.Sys.Frames.{IgnoresIo, read-Keeps, write-Keeps, resume-done, contacts-IgnoresIo}
use proxy.MultiprocServ.{
  Net, connection_thread, connect_first, fetch, fetch_from, pass_on, refuse, refusal, get_request,
  received_text, is_blocked,
}

-- How many descriptors were closed.
unfoldable pub all_closings : List Event → ℕ
all_closings [] = 0
all_closings (closed g ∷ es) = suc (all_closings es)
all_closings (sent g bs ∷ es) = all_closings es
all_closings (received g bs ∷ es) = all_closings es
all_closings (connecting h p ∷ es) = all_closings es
all_closings (spawned c d ∷ es) = all_closings es
all_closings (shut_down g ∷ es) = all_closings es

-- The sockets made and the descriptors closed since `w`: `n` sockets more are open than before.
abbrev Left : ℕ → World → World → Type 0
Left n w v =
    all_closings v.trace + length (contacts w.trace) + n
    ≡ all_closings w.trace + length (contacts v.trace)

all_closings-IgnoresIo : (target : ℕ) → IgnoresIo target all_closings
unfolding all_closings
all_closings-IgnoresIo target = record {
  sent_ignored = λ bs es. refl;
  received_ignored = λ g bs es. refl;
}

write-Left : (n : ℕ) (fd : ℕ) (bs : List ℕ) (w v : World) → Left n w v → Left n w (write fd bs v).1
write-Left n fd bs w v h = omega (
  arith,
  h,
  write-Keeps all_closings fd (all_closings-IgnoresIo fd) bs v,
  ap length (write-Keeps contacts fd (contacts-IgnoresIo fd) bs v),
)

read-Left : (n : ℕ) (fd : ℕ) (w v : World) → Left n w v → Left n w (read fd v).1
read-Left n fd w v h = omega (
  arith,
  h,
  read-Keeps all_closings fd (all_closings-IgnoresIo fd) fd v,
  ap length (read-Keeps contacts fd (contacts-IgnoresIo fd) fd v),
)

-- The socket of the address that was found.
abbrev found : Option ℕ → ℕ
found none = 0
found (some fd) = 1

module _ (net : Net) where
  connect_first-Left :
      (host port : List ℕ) (addrs : List ℕ) (w v : World) (p : Option ℕ)
      → Left 0 w v
      → (connect_first net host port addrs v).0 ≡ done p
      → Left (found p) w (connect_first net host port addrs v).1
  unfolding connect_first all_closings contacts
  connect_first-Left host port [] w v none h = λ e. h
  connect_first-Left host port [] w v (some fd) h = λ e. cc
  connect_first-Left host port (addr ∷ addrs) w v p h = elim (ℤ-cases (net.socket addr)) [
    | inr (n, e) ↦ rw (connect_first, e) (connect_first-Left host port addrs w v p h)
    | inl (fd, e) ↦
        let v₁ : World = record v { trace = connecting host port ∷ v.trace } in
        let v₂ : World = record v { trace = closed fd ∷ v₁.trace } in
        rw (connect_first, e)
          (elim (Bool-cases (net.connects fd addr)) [
            | inl up ↦ rw up (λ last.
                let same : some fd ≡ p = done-injective last in
                let one : 1 ≡ found p = ap found same in omega (arith, h, one))
            | inr down ↦ rw down (connect_first-Left host port addrs w v₂ p (omega (arith, h)))
          ])
  ]

  fetch-Left :
      (new_fd sockfd2 : ℕ) (buf : List ℕ) (w v : World)
      → Left 1 w v
      → (fetch new_fd sockfd2 buf v).0 ≡ done tt
      → Left 0 w (fetch new_fd sockfd2 buf v).1
  unfolding fetch all_closings contacts
  fetch-Left new_fd sockfd2 buf w v h =
      let (r, v₁) = write sockfd2 (get_request buf) v in
      let (r', v₂) = read sockfd2 v₁ in
      resume-done (Left 0 w) r v₁ _ λ a _. resume-done (Left 0 w) r' v₂ _ λ reply _.
        resume-done (Left 0 w) (received_text reply) v₂ _ λ buf2 _.
          let (r'', v₃) = write new_fd buf2 v₂ in
          resume-done (Left 0 w) r'' v₃ _ λ b _ _.
            let h₁ = write-Left 1 sockfd2 (get_request buf) w v h in
            let h₂ = read-Left 1 sockfd2 w v₁ h₁ in
            let h₃ = write-Left 1 new_fd buf2 w v₂ h₂ in omega (arith, h₃)

  pass_on-Left :
      (new_fd : ℕ) (buf : List ℕ) (w v : World)
      → Left 0 w v
      → (pass_on net new_fd buf v).0 ≡ done tt
      → Left 0 w (pass_on net new_fd buf v).1
  unfolding pass_on
  pass_on-Left new_fd buf w v h =
      resume-done (Left 0 w) (deref (net.getaddrinfo buf (bytes "443"))) v _ λ addrs _.
        let (r, v₁) = connect_first net buf (bytes "443") addrs v in
        resume-done (Left 0 w) r v₁ _
          λ p tried. end p v₁ (connect_first-Left buf (bytes "443") addrs w v p h tried)
    where
      end :
          (p : Option ℕ) (v₁ : World)
          → Left (found p) w v₁
          → (fetch_from new_fd buf p v₁).0 ≡ done tt
          → Left 0 w (fetch_from new_fd buf p v₁).1
      end none v₁ h₁ e = h₁
      end (some sockfd2) v₁ h₁ e = fetch-Left new_fd sockfd2 buf w v₁ h₁ e

  -- A thread that ends, whichever way it went, has closed exactly as many descriptors as it has made
  -- sockets to connect with, so of these and of its client's descriptor one is left open.
  pub connection_thread-leaks :
      (block_file : Option (List (List ℕ))) (new_fd : ℕ) (w : World)
      → (connection_thread net block_file new_fd w).0 ≡ done tt
      → let w' = (connection_thread net block_file new_fd w).1 in
        all_closings w'.trace + length (contacts w.trace)
        ≡ all_closings w.trace + length (contacts w'.trace)
  unfolding connection_thread refuse
  connection_thread-leaks block_file new_fd w e =
      let P : World → Type 0 = Left 0 w in
      let (r, w₁) = write new_fd (bytes "Hello, world!") w in
      let (r', w₂) = read new_fd w₁ in
      let h₁ = write-Left 0 new_fd (bytes "Hello, world!") w w (omega arith) in
      let h₂ = read-Left 0 new_fd w w₁ h₁ in
      let last : P (connection_thread net block_file new_fd w).1 =
        resume-done P r w₁ _
          (λ a _. resume-done P r' w₂ _ λ reply _. resume-done P (received_text reply) w₂ _ λ buf _.
            resume-done P (is_blocked block_file buf) w₂ _ λ blocked_yet _.
              elim (Bool-cases blocked_yet) [
                | inl yes_it ↦ rw yes_it (
                    let (r'', w₃) = write new_fd refusal w₂ in
                    resume-done P r'' w₃ _ λ b _ _. write-Left 0 new_fd refusal w w₂ h₂)
                | inr not_it ↦ rw not_it (pass_on-Left new_fd buf w w₂ h₂)
              ])
          e in
      omega (arith, last)
