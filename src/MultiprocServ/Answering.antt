-- ===== src/MultiprocServ/Answering.antt =====
-- A thread of multiproc_serv.c that fetches a page.
use proxy.Base.{
  ℕ, ◌+◌, ◌<◌, ◌≡◌, refl, sym, ap, ◌∙◌, ◌≢◌, true, false, Option, some, List, ◌∷◌, ◌++◌,
  append_assoc, arith, bytes, length, lt→ltb, take, take_all,
}
use proxy.Base.Int.{pos}
use proxy.CString.{c_str}
use proxy.Sys.{
  Reply, ok, Event, sent, received, connecting, closed, World, done, terminate, delivered, closings,
  contacts,
}
use proxy.Sys.Laws.{read_ok, write_ok, delivered_sent, delivered_other}
use proxy.MultiprocServ.{
  Net, received_text, is_blocked, connect_first, get_request, fetch, pass_on, connection_thread,
}

-- What has been done to the outside, if all goes well.
abbrev history : ℕ → ℕ → List ℕ → List ℕ → List Event → List Event
history new_fd fd bs page es =
    closed new_fd
    ∷ sent new_fd (c_str page)
    ∷ received fd page
    ∷ sent fd (get_request (c_str bs))
    ∷ connecting (c_str bs) (bytes "443")
    ∷ received new_fd bs
    ∷ sent new_fd (bytes "Hello, world!")
    ∷ es

module _ (new_fd fd : ℕ) (bs page : List ℕ) (es : List Event) (ne : fd ≢ new_fd) where
  history-delivered :
      delivered new_fd (history new_fd fd bs page es)
      ≡ delivered new_fd es ++ (bytes "Hello, world!" ++ c_str page)
  unfolding delivered
  history-delivered =
      delivered_sent new_fd (c_str page) (
        received fd page
        ∷ sent fd (get_request (c_str bs))
        ∷ received new_fd bs
        ∷ sent new_fd (bytes "Hello, world!")
        ∷ es)
      ∙ ap (λ t. t ++ c_str page)
          (delivered_other new_fd fd (get_request (c_str bs))
              (received new_fd bs ∷ sent new_fd (bytes "Hello, world!") ∷ es) ne
            ∙ delivered_sent new_fd (bytes "Hello, world!") es)
      ∙ append_assoc (delivered new_fd es) (bytes "Hello, world!") (c_str page)

  history-asked :
      delivered fd (history new_fd fd bs page es) ≡ delivered fd es ++ get_request (c_str bs)
  unfolding delivered
  history-asked =
      let back : new_fd ≢ fd = λ e. ne (sym e) in
      delivered_other fd new_fd (c_str page)
        (received fd page
          ∷ sent fd (get_request (c_str bs))
          ∷ received new_fd bs
          ∷ sent new_fd (bytes "Hello, world!")
          ∷ es)
        back
      ∙ delivered_sent fd (get_request (c_str bs))
          (received new_fd bs ∷ sent new_fd (bytes "Hello, world!") ∷ es)
      ∙ ap (λ t. t ++ get_request (c_str bs))
          (delivered_other fd new_fd (bytes "Hello, world!") es back)

  history-closings :
      (closings new_fd (history new_fd fd bs page es) ≡ closings new_fd es + 1)
      × (closings fd (history new_fd fd bs page es) ≡ closings fd es)
  unfolding closings
  history-closings = (ground arith, ground (arith, ne))

-- If the client's request and the host's first bytes fit into their arrays, the request is not
-- blocked, the first address of the host connects on a socket of its own, and each write takes its
-- bytes whole, then the thread ends, it has made one connection, to that host, and asked it for the
-- page; the client has been given the greeting and the host's first bytes up to a NUL, and its
-- descriptor was closed once; and the host's descriptor was not closed.
pub connection_thread-fetches :
    (net : Net) (file : Option (List (List ℕ))) (new_fd fd addr : ℕ) (after : List ℕ)
    (bs page : List ℕ) (w : World) {rs : List (Reply (List ℕ))} {ws : List (Reply ℕ)}
    → w.reads ≡ ok bs ∷ ok page ∷ rs
    → w.writes ≡ ok 13 ∷ ok (length (get_request (c_str bs))) ∷ ok (length (c_str page)) ∷ ws
    → length bs < 100
    → length page < 100
    → is_blocked file (c_str bs) ≡ done false
    → net.getaddrinfo (c_str bs) (bytes "443") ≡ some (addr ∷ after)
    → net.socket addr ≡ pos fd
    → net.connects fd addr ≡ true
    → fd ≢ new_fd
    → let (r, w') = connection_thread net file new_fd w in
      (r ≡ done tt)
      × (contacts w'.trace ≡ c_str bs ∷ contacts w.trace)
      × (delivered new_fd w'.trace
          ≡ delivered new_fd w.trace ++ (bytes "Hello, world!" ++ c_str page))
      × (delivered fd w'.trace ≡ delivered fd w.trace ++ get_request (c_str bs))
      × (closings new_fd w'.trace ≡ closings new_fd w.trace + 1)
      × (closings fd w'.trace ≡ closings fd w.trace)
unfolding connection_thread received_text terminate pass_on connect_first fetch contacts
connection_thread-fetches net file new_fd fd addr after bs page w {rs} {ws} h hw fits fits' free
      known socket connects ne =
    let buf = c_str bs in
    let w₁ : World = record w {
      writes = ok (length (get_request buf)) ∷ ok (length (c_str page)) ∷ ws;
      trace = sent new_fd (bytes "Hello, world!") ∷ w.trace;
    } in
    let w₂ : World = record w₁ { reads = ok page ∷ rs; trace = received new_fd bs ∷ w₁.trace } in
    let w₃ : World = record w₂ { trace = connecting buf (bytes "443") ∷ w₂.trace } in
    let w₄ : World = record w₃ {
      writes = ok (length (c_str page)) ∷ ws;
      trace = sent fd (get_request buf) ∷ w₃.trace;
    } in
    let w₅ : World = record w₄ { reads = rs; trace = received fd page ∷ w₄.trace } in
    let asked : take (length (get_request buf)) (get_request buf) ≡ get_request buf =
      take_all (length (get_request buf)) (get_request buf) (omega arith) in
    let given : take (length (c_str page)) (c_str page) ≡ c_str page =
      take_all (length (c_str page)) (c_str page) (omega arith) in
    let (once, never) = history-closings new_fd fd bs page w.trace ne in
    rw (write_ok new_fd (bytes "Hello, world!") w hw, read_ok new_fd w₁ h)
      (rw (lt→ltb (length bs) 100 fits, free, known)
        (rw (connect_first, socket)
          (rw (connects, write_ok fd (get_request buf) w₃ refl, asked, read_ok fd w₄ refl)
            (rw (lt→ltb (length page) 100 fits', write_ok new_fd (c_str page) w₅ refl, given)
              (
                refl,
                refl,
                history-delivered new_fd fd bs page w.trace ne,
                history-asked new_fd fd bs page w.trace ne,
                once,
                never,
              )))))
