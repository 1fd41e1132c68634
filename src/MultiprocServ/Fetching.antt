-- ===== src/MultiprocServ/Fetching.antt =====
-- Whom a thread of multiproc_serv.c contacts, and what a client gets whose request is blocked.
use proxy.Base.{
  ℕ, zero, suc, ◌-◌, ◌<◌, ◌≡◌, refl, ap, ◌∙◌, ◌⊎◌, inl, inr, true, false, some, none, Option, List,
  [], ◌∷◌, ◌++◌, bytes, replicate, length, take, str_eq, str_eq_refl, Bool-cases, lt→ltb,
  append_assoc,
}
use proxy.Base.Int.{ℤ-cases}
use proxy.CString.{c_str}
use proxy.Sys.{
  Reply, ok, World, done, contacts, sent, received, delivered, closings, deref, read, write, lift,
  terminate,
}
use proxy.Sys.Laws.{and_then-done, read_ok, write_ok, delivered_sent, delivered_received}
use proxy.Sys.Frames.{
  Keeps, contacts-IgnoresIo, read-Keeps, write-Keeps, resume-world, resume-world_known, >>=-Keeps,
}
use proxy.Server.{strip_line}
use proxy.Server.Lines.{strip_line_some, strip_line_named, OnList}
use proxy.Server.Blocklist.{Readable}
use proxy.MultiprocServ.{
  Net, connection_thread, scan_lines, is_blocked, received_text, connect_first, fetch, fetch_from,
  pass_on, refuse, refusal, get_request,
}

scan_lines-false :
    (buf : List ℕ) (lines : List (List ℕ)) → scan_lines buf lines ≡ done false → ¬ OnList buf lines
unfolding scan_lines
scan_lines-false buf [] h on = on
scan_lines-false buf (line ∷ lines) h on =
    let (key, e, h') = and_then-done (strip_line line) _ h in
    elim on [
      | inl e' ↦
          (let h'' : done true ≡ done false =
              rw (strip_line_named line buf e', str_eq_refl buf) at h in
            cc)
      | inr on' ↦ elim (Bool-cases (str_eq buf key)) [
        | inl same ↦ (let h'' : done true ≡ done false = rw same at h' in cc)
        | inr other ↦ scan_lines-false buf lines (rw other at h') on'
      ]
    ]

pub scan_lines-true :
    (buf : List ℕ) (lines : List (List ℕ))
    → Readable lines
    → OnList buf lines
    → scan_lines buf lines ≡ done true
unfolding scan_lines
scan_lines-true buf [] readable on = absurd on
scan_lines-true buf (line ∷ lines) (h, hs) (inl e) =
    rw (strip_line_named line buf e) (rw (str_eq_refl buf) refl)
scan_lines-true buf (line ∷ lines) (h, hs) (inr on) =
    let e = strip_line_some line h in
    let key = take (length (c_str line) - 1) (c_str line) in
    let rest = scan_lines-true buf lines hs on in
    elim (Bool-cases (str_eq buf key)) [
      | inl same ↦ rw e (rw same refl)
      | inr other ↦ rw e (rw other rest)
    ]

replicate-snoc :
    (n : ℕ) (host : List ℕ) (hs : List (List ℕ))
    → replicate n host ++ (host ∷ hs) ≡ replicate (suc n) host ++ hs
replicate-snoc zero host hs = refl
replicate-snoc (suc n) host hs = ap (λ l. host ∷ l) (replicate-snoc n host hs)

-- What was connected to since `w` is some number of tries of `host`.
abbrev pub Tried : List ℕ → World → World → Type 0
Tried host w v = (n : ℕ) × (contacts v.trace ≡ replicate n host ++ contacts w.trace)

module _ (net : Net) where
  connect_first-Tried :
      (host port addrs : List ℕ) (w : World) → Tried host w (connect_first net host port addrs w).1
  unfolding connect_first contacts
  connect_first-Tried host port [] w = (0, refl)
  connect_first-Tried host port (addr ∷ addrs) w = elim (ℤ-cases (net.socket addr)) [
    | inr (n, e) ↦ rw (connect_first, e) (connect_first-Tried host port addrs w)
    | inl (fd, e) ↦
        rw (connect_first, e)
          (elim (Bool-cases (net.connects fd addr)) [
            | inl up ↦ rw up (1, refl)
            | inr down ↦ rw down (
                let (n, h) = connect_first-Tried host port addrs _ in
                (suc n, h ∙ replicate-snoc n host (contacts w.trace)))
          ])
  ]

  fetch_from-Keeps :
      (new_fd : ℕ) (buf : List ℕ) (p2 : Option ℕ) → Keeps contacts (fetch_from new_fd buf p2)
  unfolding fetch contacts
  fetch_from-Keeps new_fd buf none w = refl
  fetch_from-Keeps new_fd buf (some sockfd2) w =
      >>=-Keeps contacts (write sockfd2 (get_request buf)) _
        (write-Keeps contacts sockfd2 (contacts-IgnoresIo sockfd2) (get_request buf))
        (λ r.
          >>=-Keeps contacts (read sockfd2) _
            (read-Keeps contacts sockfd2 (contacts-IgnoresIo sockfd2) sockfd2)
            (λ r2.
              >>=-Keeps contacts (lift (received_text r2)) _ (λ v. refl)
                (λ buf2.
                  >>=-Keeps contacts (write new_fd buf2) _
                    (write-Keeps contacts new_fd (contacts-IgnoresIo new_fd) buf2) (λ r3 v. refl))))
        w

  pass_on-Tried : (new_fd : ℕ) (buf : List ℕ) (w : World) → Tried buf w (pass_on net new_fd buf w).1
  unfolding pass_on
  pass_on-Tried new_fd buf w =
      resume-world (Tried buf w) (deref (net.getaddrinfo buf (bytes "443"))) w _ (0, refl)
        λ addrs.
          let (r, v) = connect_first net buf (bytes "443") addrs w in
          let (n, h) = connect_first-Tried buf (bytes "443") addrs w in
          resume-world (Tried buf w) r v (fetch_from new_fd buf) (n, h)
            λ p2. (n, fetch_from-Keeps new_fd buf p2 v ∙ h)

  refuse-Keeps : (new_fd : ℕ) → Keeps contacts (refuse new_fd)
  unfolding refuse
  refuse-Keeps new_fd =
      >>=-Keeps contacts (write new_fd refusal) _
        (write-Keeps contacts new_fd (contacts-IgnoresIo new_fd) refusal) (λ r v. refl)

  -- If blocked_list.txt opens, a thread connects to nobody, or tries addresses of one host, which
  -- no line of the file names.
  pub connection_thread-contacts :
      (lines : List (List ℕ)) (new_fd : ℕ) (w : World)
      → let w' = (connection_thread net (some lines) new_fd w).1 in
        (contacts w'.trace ≡ contacts w.trace)
        ⊎ ((host : List ℕ) × (n : ℕ) × (contacts w'.trace ≡ replicate n host ++ contacts w.trace)
            × (¬ OnList host lines))
  unfolding connection_thread is_blocked
  connection_thread-contacts lines new_fd w =
      let P : World → Type 0 = λ v.
        (contacts v.trace ≡ contacts w.trace)
        ⊎ ((host : List ℕ) × (n : ℕ) × (contacts v.trace ≡ replicate n host ++ contacts w.trace)
            × (¬ OnList host lines)) in
      let I = contacts-IgnoresIo new_fd in
      let (r₁, w₁) = write new_fd (bytes "Hello, world!") w in
      let k₁ : contacts w₁.trace ≡ contacts w.trace =
        write-Keeps contacts new_fd I (bytes "Hello, world!") w in
      let (r₂, w₂) = read new_fd w₁ in
      let k₂ : contacts w₂.trace ≡ contacts w.trace = read-Keeps contacts new_fd I new_fd w₁ ∙ k₁ in
      resume-world P r₁ w₁ _ (inl k₁) λ _. resume-world P r₂ w₂ _ (inl k₂) λ r.
        resume-world P (received_text r) w₂ _ (inl k₂) λ buf.
          resume-world_known P (scan_lines buf lines) w₂ _ (inl k₂) λ found e.
            elim (Bool-cases found) [
              | inl stop ↦ rw stop (inl (refuse-Keeps new_fd w₂ ∙ k₂))
              | inr free ↦ rw free (
                  let (n, h) = pass_on-Tried new_fd buf w₂ in
                  inr (
                    buf,
                    n,
                    h ∙ ap (λ l. replicate n buf ++ l) k₂,
                    scan_lines-false buf lines (e ∙ ap done free),
                  ))
            ]

  -- If the client's request fits into the array and a line of blocked_list.txt names it, no line
  -- of which begins with NUL, and the kernel takes both messages whole, then the thread ends, no
  -- connection was made, the client has been given the greeting and 13 bytes of the message, and
  -- its descriptor was not closed.
  pub connection_thread-refused :
      (lines : List (List ℕ)) (new_fd : ℕ) (w : World) (bs : List ℕ) {rs : List (Reply (List ℕ))}
      {ws : List (Reply ℕ)}
      → w.reads ≡ ok bs ∷ rs
      → w.writes ≡ ok 13 ∷ ok 13 ∷ ws
      → length bs < 100
      → Readable lines
      → OnList (c_str bs) lines
      → let (r, w') = connection_thread net (some lines) new_fd w in
        (r ≡ done tt)
        × (contacts w'.trace ≡ contacts w.trace)
        × (delivered new_fd w'.trace
            ≡ delivered new_fd w.trace ++ bytes "Hello, world!Website block")
        × (closings new_fd w'.trace ≡ closings new_fd w.trace)
  unfolding connection_thread is_blocked received_text terminate refuse contacts closings
  connection_thread-refused lines new_fd w bs {rs} {ws} h hw fits readable on =
      let w₁ : World = record w {
        writes = ok 13 ∷ ws;
        trace = sent new_fd (bytes "Hello, world!") ∷ w.trace;
      } in
      let w₂ : World = record w₁ { reads = rs; trace = received new_fd bs ∷ w₁.trace } in
      let given : delivered new_fd (sent new_fd refusal ∷ w₂.trace)
          ≡ delivered new_fd w.trace ++ (bytes "Hello, world!" ++ refusal) =
        delivered_sent new_fd refusal w₂.trace
        ∙ ap (λ l. l ++ refusal)
            (delivered_received new_fd new_fd bs w₁.trace
              ∙ delivered_sent new_fd (bytes "Hello, world!") w.trace)
        ∙ append_assoc (delivered new_fd w.trace) (bytes "Hello, world!") refusal in
      rw (write_ok new_fd (bytes "Hello, world!") w hw) (
        rw (read_ok new_fd w₁ h) (
          rw (lt→ltb (length bs) 100 fits) (
            rw (scan_lines-true (c_str bs) lines readable on)
              (rw (write_ok new_fd refusal w₂ refl) (refl, refl, given, refl)))))
