-- ===== src/Server/Requests.antt =====
-- `HandleConnection` on a well-formed request, from the request's bytes to the thread's end.
use proxy.Base.{
  ℕ, ◌+◌, ◌-◌, ◌≤◌, ◌<◌, ◌≡◌, refl, ◌∙◌, ◌≢◌, ◌↔◌, true, false, some, List, [], ◌∷◌, ◌++◌, arith,
  bytes, length, ◌==◌, if◌then◌else◌, lt→ltb,
}
use proxy.Base.Int.{pos}
use proxy.CString.{strstr}
use proxy.CString.Laws.{Lacks, c_str_self, array_str_padded, Lacks-append}
use proxy.Sys.{
  Reply, ok, received, World, done, terminate, contacts, delivered, closings, connecting,
}
use proxy.Sys.Laws.{read_ok}
use proxy.SimpleSet.{SimpleSet}
use proxy.Utils.{Net, crlf}
use proxy.Utils.Host.{request_line, parse_host-request_line}
use proxy.Sys.Frames.{contacts-IgnoresIo, closings-IgnoresIo}
use proxy.Utils.{connect_to_server, connected}
use proxy.Server.Handle.{carry-contacts}
use proxy.Server.Tunnel.{carry-whole}
use proxy.Utils.Write.{Live, Honest, total, write_all_to_socket-all}
use proxy.Utils.Frames.{write_all_to_socket-Keeps}
use proxy.Server.Relay.{stream, whole, Stops}
use proxy.Server.{
  bufsize, forbid, forbidden, established, tunnel, check_blocklist, serve, dispatch,
  handle_connection, assert_fd,
}

-- A request that `parseHost` reads without running over an array, in a single `read`.
pub record GoodRequest (before host port rest : List ℕ) : Type 0 where
  pub first : strstr (before ++ bytes "Host: ") (bytes "Host: ") ≡ some (bytes "Host: ")
  pub no_colon : Lacks 58 host
  pub no_return : Lacks 13 port
  pub host_fits : length host < 1024
  pub port_fits : length port < 32
  pub no_nul : Lacks 0 (request_line before host port rest)
  pub read_fits : length (request_line before host port rest) ≤ bufsize

module _ (before host port rest : List ℕ) (g : GoodRequest before host port rest) where
  after_host_label : Lacks 0 (host ++ ((58 ∷ []) ++ (port ++ (crlf ++ rest))))
  after_host_label = (Lacks-append 0 (bytes "Host: ") _ (Lacks-append 0 before _ g.no_nul).1).1

  pub host_no_nul : Lacks 0 host
  host_no_nul = (Lacks-append 0 host _ after_host_label).0

  pub port_no_nul : Lacks 0 port
  port_no_nul = (Lacks-append 0 port _ (Lacks-append 0 host _ after_host_label).1.1).0

  terminated :
      terminate (bufsize + 1) (request_line before host port rest)
      ≡ done (request_line before host port rest)
  unfolding terminate
  terminated =
      rw
        (lt→ltb (length (request_line before host port rest)) (bufsize + 1)
          (omega (arith, g.read_fits)))
        (rw (c_str_self (request_line before host port rest) g.no_nul))

  module _ (S : SimpleSet) (net : Net) (blocked_set : S.State) (client_fd : ℕ) where
    serve-request_line :
        (w : World)
        → serve S net blocked_set client_fd (request_line before host port rest) w
          ≡ (if check_blocklist S blocked_set host == 1
                then forbid client_fd
                else tunnel net client_fd host port)
              w
    unfolding serve
    serve-request_line w =
        let parsed =
          parse_host-request_line before host port rest g.first g.no_colon g.no_return
            (omega (arith, g.host_fits)) (omega (arith, g.port_fits)) in
        rw terminated (
          rw parsed (
            rw (array_str_padded host (1024 - length host) host_no_nul (omega (arith, g.host_fits)))
              (rw (
                array_str_padded port (32 - length port) port_no_nul
                  (omega (arith, g.port_fits))))))

    dispatch_nonempty :
        (s : List ℕ) (b : ℕ) (t : List ℕ) (w : World)
        → dispatch S net blocked_set client_fd (ok (s ++ (b ∷ t))) w
          ≡ serve S net blocked_set client_fd (s ++ (b ∷ t)) w
    dispatch_nonempty [] b t w = refl
    dispatch_nonempty (x ∷ s) b t w = refl

    -- The run after the request has been read.
    pub handle_connection-request_line :
        (w : World) {rs : List (Reply (List ℕ))}
        → w.reads ≡ ok (request_line before host port rest) ∷ rs
        → handle_connection S net blocked_set client_fd w
          ≡ (if check_blocklist S blocked_set host == 1
                then forbid client_fd
                else tunnel net client_fd host port)
              (record w {
                reads = rs;
                trace = received client_fd (request_line before host port rest) ∷ w.trace;
              })
    unfolding handle_connection
    handle_connection-request_line w h =
        rw (read_ok client_fd w h) (dispatch_nonempty before b'H' _ _ ∙ serve-request_line _)

    -- If the client asks, in a well-formed request, for a blocked host, and its socket takes the
    -- message without an error, then the thread ends, the client has been given the whole 403
    -- message, no connection was made, and the client's descriptor was closed once.
    pub handle_connection-forbids :
        (w : World) {rs : List (Reply (List ℕ))}
        → w.reads ≡ ok (request_line before host port rest) ∷ rs
        → check_blocklist S blocked_set host ≡ 1
        → Live w.writes
        → Honest (length forbidden) w.writes
        → length forbidden ≤ total w.writes
        → let (r, w') = handle_connection S net blocked_set client_fd w in
          (r ≡ done tt)
          × (contacts w'.trace ≡ contacts w.trace)
          × (delivered client_fd w'.trace ≡ delivered client_fd w.trace ++ forbidden)
          × (closings client_fd w'.trace ≡ closings client_fd w.trace + 1)
    unfolding contacts delivered closings forbid
    handle_connection-forbids w {rs} h blocked live honest enough =
        let w₁ : World = record w {
          reads = rs;
          trace = received client_fd (request_line before host port rest) ∷ w.trace;
        } in
        let (full, out) = write_all_to_socket-all client_fd forbidden w₁ live honest enough in
        let kept =
          write_all_to_socket-Keeps contacts client_fd (contacts-IgnoresIo client_fd) forbidden
            w₁ in
        let open_yet =
          write_all_to_socket-Keeps (closings client_fd) client_fd
            (closings-IgnoresIo client_fd client_fd) forbidden w₁ in
        rw (handle_connection-request_line w h)
          (rw blocked (rw full (refl, kept, out, ground (arith, open_yet))))

    -- If the client asks, in a well-formed request, for a host that is not blocked, which
    -- resolves and accepts, and each write takes its bytes whole, then the thread makes one
    -- connection, to that host; the client is given the 200 message; the destination is given
    -- exactly what the client sends after the request; and the thread ends exactly if the client
    -- closes or fails.
    pub handle_connection-tunnels :
        (w : World) {rs : List (Reply (List ℕ))} {addr dest_fd : ℕ}
        → w.reads ≡ ok (request_line before host port rest) ∷ rs
        → check_blocklist S blocked_set host ≢ 1
        → net.getaddrinfo host port ≡ some addr
        → net.socket ≡ pos dest_fd
        → net.connects net.socket addr ≡ true
        → dest_fd ≢ client_fd
        → w.writes ≡ ok (length established) ∷ whole rs
        → let (r, w') = handle_connection S net blocked_set client_fd w in
          (contacts w'.trace ≡ host ∷ contacts w.trace)
          × ((r ≡ done tt) ↔ Stops rs)
          × (delivered client_fd w'.trace ≡ delivered client_fd w.trace ++ established)
          × (delivered dest_fd w'.trace ≡ delivered dest_fd w.trace ++ stream rs)
    unfolding contacts delivered tunnel connect_to_server
    handle_connection-tunnels w {rs} {addr} {dest_fd} h free found socket accepts ne takes =
        let w₁ : World = record w {
          reads = rs;
          trace =
              connecting host port
              ∷ received client_fd (request_line before host port rest)
              ∷ w.trace;
        } in
        let (ends, told, carried) = carry-whole client_fd dest_fd w₁ ne takes in
        let allowed : (check_blocklist S blocked_set host == 1) ≡ false = ground arith in
        let reached : assert_fd (connected (net.connects net.socket addr) net.socket)
            ≡ done dest_fd =
          rw accepts (rw socket refl) in
        rw (handle_connection-request_line w h) (
          rw allowed
            (rw found (rw reached (carry-contacts client_fd dest_fd w₁, ends, told, carried))))
