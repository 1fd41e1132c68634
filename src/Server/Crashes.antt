-- ===== src/Server/Crashes.antt =====
-- Requests that take the whole process of server.c down with them.
use proxy.Base.{
  ℕ, ◌+◌, ◌≤◌, ◌≡◌, refl, ◌≢◌, false, none, some, List, ◌∷◌, arith, bytes, length, lt→ltb, drop,
  ◌==◌,
}
use proxy.CString.{c_str, strstr}
use proxy.Sys.{Reply, ok, World, undefined, aborted, terminate}
use proxy.Sys.Laws.{read_ok}
use proxy.SimpleSet.{SimpleSet}
use proxy.Utils.{Net, parse_host, copy_hostname, connect_to_server}
use proxy.Utils.Host.{request_line}
use proxy.Server.{bufsize, check_blocklist, serve, handle_connection, tunnel}
use proxy.Server.Requests.{GoodRequest, handle_connection-request_line}

module _ (S : SimpleSet) (net : Net) (blocked_set : S.State) (client_fd : ℕ) (w : World) where
  -- If the client's first message fits into the buffer and its text has no "Host: ", then the
  -- thread's run is undefined: it reads through a pointer near NULL.
  pub handle_connection-no_host :
      (b : ℕ) (bs : List ℕ) {rs : List (Reply (List ℕ))}
      → w.reads ≡ ok (b ∷ bs) ∷ rs
      → length (b ∷ bs) ≤ bufsize
      → strstr (c_str (b ∷ bs)) (bytes "Host: ") ≡ none
      → (handle_connection S net blocked_set client_fd w).0 ≡ undefined
  unfolding handle_connection serve terminate parse_host
  handle_connection-no_host b bs h fits absent =
      rw (read_ok client_fd w h)
        (rw (lt→ltb (length (b ∷ bs)) (bufsize + 1) (omega arith)) (rw absent refl))

  -- If the client's first message fits into the buffer and its text has a "Host: " but no colon
  -- after it, then an assertion fails, which aborts the process.
  pub handle_connection-no_colon :
      (b : ℕ) (bs label : List ℕ) {rs : List (Reply (List ℕ))}
      → w.reads ≡ ok (b ∷ bs) ∷ rs
      → length (b ∷ bs) ≤ bufsize
      → strstr (c_str (b ∷ bs)) (bytes "Host: ") ≡ some label
      → strstr (drop 6 label) (bytes ":") ≡ none
      → (handle_connection S net blocked_set client_fd w).0 ≡ aborted
  unfolding handle_connection serve terminate parse_host copy_hostname
  handle_connection-no_colon b bs label h fits found absent =
      rw (read_ok client_fd w h)
        (rw (lt→ltb (length (b ∷ bs)) (bufsize + 1) (omega arith)) (rw found (rw absent refl)))

  -- If the client asks, in a well-formed request, for a host that is not blocked and does not
  -- resolve, then the thread's run is undefined: it reads the result that `getaddrinfo` has not
  -- set before it tests `s`.
  pub handle_connection-unresolved :
      (before host port rest : List ℕ) (g : GoodRequest before host port rest)
      {rs : List (Reply (List ℕ))}
      → w.reads ≡ ok (request_line before host port rest) ∷ rs
      → check_blocklist S blocked_set host ≢ 1
      → net.getaddrinfo host port ≡ none
      → (handle_connection S net blocked_set client_fd w).0 ≡ undefined
  unfolding tunnel connect_to_server
  handle_connection-unresolved before host port rest g h free unknown =
      let allowed : (check_blocklist S blocked_set host == 1) ≡ false = ground arith in
      rw (handle_connection-request_line before host port rest g S net blocked_set client_fd w h)
        (rw allowed (rw unknown refl))
