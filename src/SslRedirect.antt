-- ===== src/SslRedirect.antt =====
-- ssl-redirect.c: the proxy that serves one client and stops.
pub mod Connection
pub mod Program
pub mod Tunnelling
pub mod Forward
use proxy.Base.{ℕ, ◌*◌, ◌==◌, List, [], ◌∷◌, if◌then◌else◌}
use proxy.CString.{array_str}
use proxy.Sys.{Reply, ok, interrupted, failed, World, Outcome, done, blocked, undefined, exited}
use proxy.Sys.{M, ◌>>=◌, ◌>>◌, resume, lift, deref, emit, take_reply, read, write, terminate}
use proxy.Sys.{Event, spawned, shut_down, closed}
use proxy.SimpleSet.{SimpleSet}
use proxy.Utils.{Net, HostInfo, parse_host, write_all_to_socket, connect_to_server}
use proxy.Server.Main.{Host, start}
use proxy.Server
use proxy.Server.{forbidden, established, assert_fd}

-- BUFSIZE of this program
abbrev pub bufsize : ℕ
bufsize = 1024 * 128

-- `checkBlocklist`, word for word the one of server.c.
abbrev pub check_blocklist : (S : SimpleSet) → S.State → List ℕ → ℕ
check_blocklist S blocked_set hostname = Server.check_blocklist S blocked_set hostname

-- One direction of the tunnel. The loop has no way out: a read of 0 bytes is passed on as a write
-- of 0 bytes, and -1 becomes the count of a `write`, far past the buffer. Once the source has closed,
-- each read gives 0 bytes at once: a script with `n` empty replies is `n` rounds of that, and `blocked`
-- at its end means that the next read has been made. This program does not ignore SIGPIPE: a `write`
-- to a peer that has gone ends the process and gives no reply, so the script of writes ends there. A
-- reply `failed` is an error without that signal.
unfoldable pub forward : ℕ → ℕ → List (Reply (List ℕ)) → M (Unit {0})
forward source target [] w = (blocked, record w { reads = [] })
forward source target (ok bs ∷ rs) w =
    (do r ← take_reply source (ok bs); r' ← write target bs; forward source target rs) w
forward source target (interrupted ∷ rs) w = (undefined, record w { reads = rs })
forward source target (failed ∷ rs) w = (undefined, record w { reads = rs })

-- The thread that carries the destination's bytes to the client. The array `fds` is there when it
-- reads it: `main` does not return once the thread has been created. The script of writes ends where
-- SIGPIPE ends the process.
unfoldable pub host_to_cli : ℕ → ℕ → M (Unit {0})
host_to_cli client_fd dest_fd w = forward dest_fd client_fd w.reads w

-- The text of the request: `buffer[amountRead] = 0` in the array that `read` may have filled.
unfoldable pub request_text : Reply (List ℕ) → Outcome (List ℕ)
request_text (ok bs) = terminate bufsize bs
request_text interrupted = undefined
request_text failed = undefined

-- `return 0` from `main`
abbrev pub return_zero : M (Unit {0})
return_zero w = (exited 0, w)

-- The answer to a client that asks for a blocked host, and the end of the program.
unfoldable pub forbid : ℕ → M (Unit {0})
forbid client_fd = do
  z ← write_all_to_socket client_fd forbidden
  emit (shut_down client_fd)
  emit (closed client_fd)
  return_zero

-- The rest of `main` behind the connection to the destination.
unfoldable pub carry : ℕ → ℕ → M (Unit {0})
carry client_fd dest_fd = do
  z ← write_all_to_socket client_fd established
  emit (spawned client_fd dest_fd)
  (λ w. forward client_fd dest_fd w.reads w)
  emit (shut_down client_fd)
  emit (closed client_fd)
  return_zero

unfoldable pub tunnel : Net → ℕ → List ℕ → List ℕ → M (Unit {0})
tunnel net client_fd hostname port = do
  z ← connect_to_server net hostname port
  dest_fd ← lift (assert_fd z)
  carry client_fd dest_fd

module _ (S : SimpleSet) (net : Net) (blocked_set : S.State) where
  unfoldable pub serve : ℕ → Reply (List ℕ) → M (Unit {0})
  serve client_fd r = do
    text ← lift (request_text r)
    inf ← lift (parse_host text)
    hostname ← lift (deref (array_str inf.hostname))
    port ← lift (deref (array_str inf.port))
    (if check_blocklist S blocked_set hostname == 1
        then forbid client_fd
        else tunnel net client_fd hostname port)

  -- `main` from the accepted client on.
  unfoldable pub main_connection : ℕ → M (Unit {0})
  main_connection client_fd = do r ← read client_fd; serve client_fd r

-- `main`, with the client that `accept` returns. Its start is the one of server.c, statement by
-- statement, but for the call that has SIGPIPE ignored, which is not there: a `write` that raises it
-- has no reply in the script, and the run is `blocked` in it.
unfoldable pub main : (S : SimpleSet) → Net → Host → ℕ → M (Unit {0})
main S net host client_fd = do
  blocked_set ← lift (start S host)
  main_connection S net blocked_set client_fd
