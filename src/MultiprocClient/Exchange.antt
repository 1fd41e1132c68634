-- ===== src/MultiprocClient/Exchange.antt =====
-- What multiproc_client.c exchanges with its server.
use proxy.Base.{
  ℕ, ◌+◌, ◌<◌, ◌≡◌, refl, ap, ◌∙◌, true, some, List, [], ◌∷◌, ◌++◌, arith, bytes, length, take,
  take_all, lt→ltb,
}
use proxy.Base.Int.{pos}
use proxy.Sys.{
  Reply, ok, World, exited, sent, received, connecting, contacts, delivered, closings, terminate,
}
use proxy.Sys.Laws.{write_ok, read_ok, delivered_sent, delivered_received}
use proxy.MultiprocServ.{Net, connect_first, received_text}
use proxy.MultiprocClient.{arguments, exchange, main}

-- If the first address of the host takes a connection, the kernel takes the message whole and two
-- answers come that fit into the array, then the program ends with status 0; it has connected once,
-- to the host; the server has been given the message; and the socket was closed once.
pub main-exchange :
    (net : Net) (name host message : List ℕ) (w : World) (addr sockfd : ℕ) (addrs a b : List ℕ)
    {rs : List (Reply (List ℕ))} {ws : List (Reply ℕ)}
    → net.getaddrinfo host (bytes "3490") ≡ some (addr ∷ addrs)
    → net.socket addr ≡ pos sockfd
    → net.connects sockfd addr ≡ true
    → w.writes ≡ ok (length message) ∷ ws
    → w.reads ≡ ok a ∷ ok b ∷ rs
    → length a < 100
    → length b < 100
    → let (r, w') = main net (name ∷ host ∷ message ∷ []) w in
      (r ≡ exited 0)
      × (contacts w'.trace ≡ host ∷ contacts w.trace)
      × (delivered sockfd w'.trace ≡ delivered sockfd w.trace ++ message)
      × (closings sockfd w'.trace ≡ closings sockfd w.trace + 1)
unfolding main arguments exchange received_text terminate contacts delivered closings connect_first
main-exchange net name host message w addr sockfd addrs a b {rs} {ws} known up conn hw hr fa fb =
    let w₁ : World = record w { trace = connecting host (bytes "3490") ∷ w.trace } in
    let w₂ : World = record w₁ {
      writes = ws;
      trace = sent sockfd (take (length message) message) ∷ w₁.trace;
    } in
    let w₃ : World = record w₂ { reads = ok b ∷ rs; trace = received sockfd a ∷ w₂.trace } in
    let given : delivered sockfd w₃.trace ≡ delivered sockfd w.trace ++ message =
      delivered_received sockfd sockfd a w₂.trace
      ∙ delivered_sent sockfd (take (length message) message) w₁.trace
      ∙ ap (λ t. delivered sockfd w.trace ++ t) (take_all (length message) message (omega arith)) in
    rw known (
      rw (connect_first, up)
        (rw conn (
          rw (write_ok sockfd message w₁ hw) (
            rw (read_ok sockfd w₂ hr) (
              rw (lt→ltb (length a) 100 fa) (
                rw (read_ok sockfd w₃ refl)
                  (rw (lt→ltb (length b) 100 fb) (refl, refl, given, ground arith))))))))
