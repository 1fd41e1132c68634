-- ===== src/SslRedirect/Tunnelling.antt =====
-- ssl-redirect.c on a well-formed request, from its start to the loop that it never leaves.
use proxy.Base.{
  ℕ, ◌<◌, ◌≡◌, refl, sym, ap, ◌∙◌, ◌≢◌, true, false, some, List, ◌∷◌, ◌++◌, arith, length, ◌==◌,
  lt→ltb, ◌-◌,
}
use proxy.Base.Int.{pos}
use proxy.CString.Laws.{c_str_self, array_str_padded}
use proxy.Sys.{
  ok, received, connecting, spawned, sent, World, done, blocked, terminate, contacts, delivered,
}
use proxy.Sys.Laws.{read_ok, delivered_sent}
use proxy.Sys.Frames.{contacts-IgnoresIo, delivered-IgnoresIo}
use proxy.SimpleSet.{SimpleSet}
use proxy.Utils.{Net, connect_to_server, connected}
use proxy.Utils.Host.{request_line, parse_host-request_line}
use proxy.Utils.Write.{write_all_to_socket_at_once}
use proxy.SslRedirect.{check_blocklist}
use proxy.Server.{established, assert_fd}
use proxy.Server.Main.{Host, start}
use proxy.Server.Requests.{GoodRequest, host_no_nul, port_no_nul}
use proxy.SslRedirect.{bufsize, request_text, carry, tunnel, serve, main_connection, main}
use proxy.SslRedirect.Forward.{joined, arrive, taken_whole, forward-joined, forward-Keeps}

module _ (client_fd dest_fd : ℕ) (chunks : List (List ℕ)) (ne : dest_fd ≢ client_fd) where
  -- The tunnel over sockets that take each message whole.
  carry-joined :
      (w : World)
      → w.reads ≡ arrive chunks
      → w.writes ≡ ok (length established) ∷ taken_whole chunks
      → let (r, w') = carry client_fd dest_fd w in
        (r ≡ blocked)
        × (contacts w'.trace ≡ contacts w.trace)
        × (delivered client_fd w'.trace ≡ delivered client_fd w.trace ++ established)
        × (delivered dest_fd w'.trace ≡ delivered dest_fd w.trace ++ joined chunks)
  unfolding carry contacts delivered
  carry-joined w k h =
      let w₂ : World = record w {
        reads = arrive chunks;
        writes = taken_whole chunks;
        trace = spawned client_fd dest_fd ∷ sent client_fd established ∷ w.trace;
      } in
      let (waits, given) = forward-joined client_fd dest_fd chunks w₂ refl in
      let told =
        forward-Keeps client_fd dest_fd (delivered client_fd)
          (delivered-IgnoresIo client_fd dest_fd ne) (arrive chunks) w₂ in
      let same =
        forward-Keeps client_fd dest_fd contacts (contacts-IgnoresIo dest_fd) (arrive chunks) w₂ in
      let others = delivered-IgnoresIo dest_fd client_fd (λ e. ne (sym e)) in
      rw (write_all_to_socket_at_once client_fd 50 _ w h) (
        rw k (
          rw waits (
            refl,
            same,
            told ∙ delivered_sent client_fd established w.trace,
            given ∙ ap (λ t. t ++ joined chunks) (others.sent_ignored established w.trace),
          )))

  module _ (before host port rest : List ℕ) (g : GoodRequest before host port rest) (S : SimpleSet)
      (net : Net) where
    serve-request_line :
        (blocked_set : S.State) (w : World)
        → length (request_line before host port rest) < bufsize
        → check_blocklist S blocked_set host ≢ 1
        → serve S net blocked_set client_fd (ok (request_line before host port rest)) w
          ≡ tunnel net client_fd host port w
    unfolding serve request_text terminate
    serve-request_line blocked_set w short free =
        let text = request_line before host port rest in
        let parsed =
          parse_host-request_line before host port rest g.first g.no_colon g.no_return
            (omega (arith, g.host_fits)) (omega (arith, g.port_fits)) in
        let hostname =
          array_str_padded host (1024 - length host) (host_no_nul before host port rest g)
            (omega (arith, g.host_fits)) in
        let service =
          array_str_padded port (32 - length port) (port_no_nul before host port rest g)
            (omega (arith, g.port_fits)) in
        let allowed : (check_blocklist S blocked_set host == 1) ≡ false = ground arith in
        rw (lt→ltb (length text) bufsize short)
          (rw (c_str_self text g.no_nul) (rw parsed (rw hostname (rw service (rw allowed refl)))))

    -- If the program starts, its client asks, in a well-formed request that is shorter than the
    -- array, for a host that is not blocked, which resolves and accepts on a socket of its own, and
    -- each write takes its bytes whole, then the program makes one connection, to that host; the
    -- client is given the 200 message, and the destination exactly what the client sends after the
    -- request; and it is in its next read after that, however many of the reads before have given no
    -- byte, as those do that follow on the client's close.
    pub main-tunnels :
        (up : Host) {s : S.State} (w : World) {addr : ℕ}
        → start S up ≡ done s
        → w.reads ≡ ok (request_line before host port rest) ∷ arrive chunks
        → length (request_line before host port rest) < bufsize
        → check_blocklist S s host ≢ 1
        → net.getaddrinfo host port ≡ some addr
        → net.socket ≡ pos dest_fd
        → net.connects net.socket addr ≡ true
        → w.writes ≡ ok (length established) ∷ taken_whole chunks
        → let (r, w') = main S net up client_fd w in
          (r ≡ blocked)
          × (contacts w'.trace ≡ host ∷ contacts w.trace)
          × (delivered client_fd w'.trace ≡ delivered client_fd w.trace ++ established)
          × (delivered dest_fd w'.trace ≡ delivered dest_fd w.trace ++ joined chunks)
    unfolding main main_connection tunnel connect_to_server contacts delivered
    main-tunnels up {s} w {addr} started k short free found socket accepts h =
        let text = request_line before host port rest in
        let w₁ : World = record w {
          reads = arrive chunks;
          trace = received client_fd text ∷ w.trace;
        } in
        let w₂ : World = record w₁ { trace = connecting host port ∷ w₁.trace } in
        let reached : assert_fd (connected (net.connects net.socket addr) net.socket)
            ≡ done dest_fd =
          rw accepts (rw socket refl) in
        rw started (
          rw (read_ok client_fd w k) (
            rw (serve-request_line s w₁ short free)
              (rw found (rw reached (carry-joined w₂ refl h)))))
