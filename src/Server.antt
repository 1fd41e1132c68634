-- ===== src/Server.antt =====
-- server.c: the proxy with a thread for each client.
pub mod Lines
pub mod Blocklist
pub mod Relay
pub mod Handle
pub mod Tunnel
pub mod Protocol
pub mod Sharing
pub mod Closings
pub mod Liveness
pub mod Requests
pub mod Crashes
pub mod Main
use proxy.Base.{
  ℕ, ◌+◌, ◌-◌, ◌*◌, ◌==◌, Bool, true, false, Option, List, [], ◌∷◌, ◌++◌, bytes, some, none,
}
use proxy.Base.{if◌then◌else◌, length, take}
use proxy.Base.Int.{ℤ, pos, negsuc, ltb_ℤ}
use proxy.CString.{c_str, array_str}
use proxy.Sys.{
  Reply, ok, interrupted, failed, World, Outcome, done, blocked, aborted, undefined, exited,
}
use proxy.Sys.{
  M, ◌>>=◌, ◌>>◌, return, resume, lift, deref, and_then, emit, take_reply, read, write, terminate,
}
use proxy.Sys.{Event, connecting, spawned, shut_down, closed}
use proxy.SimpleSet.{SimpleSet, Status, set_true, set_false, malloc_error, circular_error}
use proxy.SimpleSet.{already_present}
use proxy.Utils.{Net, HostInfo, parse_host, write_all_to_socket, connect_to_server}

-- BUFSIZE
abbrev pub bufsize : ℕ
bufsize = 1024 * 1024

-- One direction of a tunnel, as a loop over the replies to `read(source)`: each chunk is written
-- to `target` once, and the result of that write is not looked at.
unfoldable pub relay : ℕ → ℕ → List (Reply (List ℕ)) → M (Unit {0})
relay source target [] w = (blocked, record w { reads = [] })
relay source target (ok [] ∷ rs) w = (done tt, record w { reads = rs })
relay source target (ok (b ∷ bs) ∷ rs) w =
    (do r ← take_reply source (ok (b ∷ bs)); r' ← write target (b ∷ bs); relay source target rs) w
relay source target (interrupted ∷ rs) w = relay source target rs w
relay source target (failed ∷ rs) w = (done tt, record w { reads = rs })

-- The thread that carries the destination's bytes to the client, with what the array `fds` of
-- `HandleConnection` holds when this thread reads it: it is gone once that function has returned.
unfoldable pub host_to_cli : Option (ℕ × ℕ) → M (Unit {0})
host_to_cli none w = (undefined, w)
host_to_cli (some (client_fd, dest_fd)) w = relay dest_fd client_fd w.reads w

abbrev pub forbidden : List ℕ
forbidden = bytes "403 Forbidden" ++ (13 ∷ 10 ∷ 13 ∷ 10 ∷ [])

abbrev pub established : List ℕ
established = bytes "200 OK" ++ (13 ∷ 10 ∷ 13 ∷ 10 ∷ [])

-- The answer to a client that is turned away.
unfoldable pub forbid : ℕ → M (Unit {0})
forbid client_fd = do
  z ← write_all_to_socket client_fd forbidden
  emit (shut_down client_fd)
  emit (closed client_fd)

-- `assert(dest_fd >= 0)`
abbrev pub assert_fd : ℤ → Outcome ℕ
assert_fd (pos fd) = done fd
assert_fd (negsuc n) = aborted

-- The end of a tunnel.
unfoldable pub hang_up : ℕ → ℕ → M (Unit {0})
hang_up client_fd dest_fd = do
  emit (shut_down client_fd)
  emit (closed client_fd)
  emit (shut_down dest_fd)
  emit (closed dest_fd)

-- The part of `HandleConnection` after the connection to the destination.
unfoldable pub carry : ℕ → ℕ → M (Unit {0})
carry client_fd dest_fd = do
  z ← write_all_to_socket client_fd established
  emit (spawned client_fd dest_fd)
  (λ w. relay client_fd dest_fd w.reads w)
  hang_up client_fd dest_fd

-- The part of `HandleConnection` after the blocklist test.
unfoldable pub tunnel : Net → ℕ → List ℕ → List ℕ → M (Unit {0})
tunnel net client_fd hostname port = do
  z ← connect_to_server net hostname port
  dest_fd ← lift (assert_fd z)
  carry client_fd dest_fd

-- `blocked_list.txt` as `getline` gives it. The byte before the text's end is overwritten; a line
-- that begins with NUL has none.
unfoldable pub strip_line : List ℕ → Outcome (List ℕ)
strip_line line =
    let text = c_str line in
    if length text == 0 then undefined else done (take (length text - 1) text)

module _ (S : SimpleSet) where
  -- The loop of `main` that fills the set. The result of `set_add` is not looked at.
  unfoldable pub load : S.State → List (List ℕ) → Outcome S.State
  load s [] = done s
  load s (line ∷ lines) = and_then (strip_line line) λ key. load (S.set_add s key).0 lines

  unfoldable pub check_blocklist : S.State → List ℕ → ℕ
  check_blocklist blocked_set hostname = elim (S.set_contains blocked_set hostname) [
    | set_true ↦ 1
    | _ ↦ 0
  ]

  module _ (net : Net) (blocked_set : S.State) where
    -- `HandleConnection` once a request of at least one byte has been read.
    unfoldable pub serve : ℕ → List ℕ → M (Unit {0})
    serve client_fd request = do
      text ← lift (terminate (bufsize + 1) request)
      inf ← lift (parse_host text)
      hostname ← lift (deref (array_str inf.hostname))
      port ← lift (deref (array_str inf.port))
      (if check_blocklist blocked_set hostname == 1
          then forbid client_fd
          else tunnel net client_fd hostname port)

    abbrev pub dispatch : ℕ → Reply (List ℕ) → M (Unit {0})
    dispatch client_fd (ok []) = forbid client_fd
    dispatch client_fd (ok (b ∷ bs)) = serve client_fd (b ∷ bs)
    dispatch client_fd interrupted = forbid client_fd
    dispatch client_fd failed = forbid client_fd

    unfoldable pub handle_connection : ℕ → M (Unit {0})
    handle_connection client_fd = do r ← read client_fd; dispatch client_fd r
