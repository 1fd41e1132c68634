-- ===== src/Redirect.antt =====
-- redirect.c: the HTTP proxy with a block list of prefixes.
pub mod Blocking
pub mod Parsing
pub mod Sending
pub mod Receiving
pub mod Rounds
pub mod Turned
pub mod Program
use proxy.Base.{
  ℕ, zero, suc, ◌+◌, ◌-◌, ◌*◌, ◌==◌, Bool, true, false, ◌||◌, Option, none, some, List, [], ◌∷◌,
  ◌++◌, bytes,
}
use proxy.Base.{if◌then◌else◌, length, take, drop, ltb}
use proxy.Base.Int.{ℤ, pos, negsuc}
use proxy.CString.{c_str, strstr, starts_with, isspace}
use proxy.Sys.{Reply, ok, interrupted, failed, World, Outcome, done, blocked, undefined, exited}
use proxy.Sys.{
  M, ◌>>=◌, ◌>>◌, return, resume, lift, deref, and_then, emit, take_reply, give_reply, read, write,
  terminate,
}
use proxy.Sys.{Event, connecting, closed}
use proxy.Utils.{crlf}
use proxy.Server.{strip_line}
use proxy.Server.Main.{Host, assert_true, or_exit}

-- `block_arr` and `block_list_size`: the entries that are set, of 100.
unfoldable pub push_entry : List (List ℕ) → List ℕ → Outcome (List (List ℕ))
push_entry block_arr entry =
    if ltb (length block_arr) 100 then done (block_arr ++ (entry ∷ [])) else undefined

unfoldable pub load_entries : List (List ℕ) → List (List ℕ) → Outcome (List (List ℕ))
load_entries block_arr [] = done block_arr
load_entries block_arr (line ∷ lines) =
    and_then (strip_line line)
      λ entry. and_then (push_entry block_arr entry) λ block_arr'. load_entries block_arr' lines

-- With no file, `fclose` is given NULL.
unfoldable pub load : Option (List (List ℕ)) → Outcome (List (List ℕ))
load none = undefined
load (some lines) = load_entries [] lines

-- The loop that measures the host: it ends at a colon or white space, also behind a NUL. Past the
-- bytes that were stored it reads what the array happens to hold.
unfoldable pub scan_host : List ℕ → Outcome (List ℕ)
scan_host [] = undefined
scan_host (b ∷ bs) =
    let rest = scan_host bs in
    if b == b':' || isspace b then done [] else and_then rest λ host. done (b ∷ host)

-- `hostname[hostlen]` in an array of 1024.
unfoldable pub check_length : List ℕ → Outcome (List ℕ)
check_length host = if ltb (length host) 1024 then done host else undefined

-- The host that `parseReq` copies, from the bytes that stand in its array. `strstr` searches the
-- text before the first NUL, and `strncpy` copies no further than a NUL; the loop between them looks
-- at all bytes. With no "Host: " it reads from a pointer near NULL.
unfoldable pub request_host : List ℕ → Outcome (List ℕ)
request_host req = and_then (deref (strstr (c_str req) (bytes "Host: "))) λ label.
    and_then (scan_host (drop (length (c_str req) - length label + 6) req))
      λ host. and_then (check_length host) λ hostname. done (c_str hostname)

-- The loop over `block_arr`.
unfoldable pub is_blocked : List (List ℕ) → List ℕ → Bool
is_blocked [] hostname = false
is_blocked (entry ∷ entries) hostname = starts_with entry hostname || is_blocked entries hostname

-- What the network does: `socket`, `gethostbyname`. The result of `connect` is only reported.
pub record Net : Type 0 where
  pub socket : ℤ
  pub gethostbyname : List ℕ → Option ℕ

module _ (net : Net) (block_arr : List (List ℕ)) where
  -- `parseReq`
  unfoldable pub parse_req : List ℕ → M ℤ
  parse_req req = do
    hostname ← lift (request_host req)
    (if is_blocked block_arr hostname then return (negsuc 0) else (do
      addr ← lift (deref (net.gethostbyname hostname))
      emit (connecting hostname (bytes "80"))
      return net.socket))

-- The descriptor of a call, none if it is negative.
abbrev pub fd_of : ℤ → Option ℕ
fd_of (pos fd) = some fd
fd_of (negsuc n) = none

-- `sent += bytes` for a failed call, and then `continue` unless the index is below 0.
abbrev pub step_back : {A : Type 0} → ℕ → (ℕ → M A) → M A
step_back zero continue = lift undefined
step_back (suc n) continue = continue n

module _ (sockfd : ℕ) (req : List ℕ) where
  -- The first loop of `sendReq`, at `sent`: -1 is added to `sent` like any count. Below 0 the next
  -- round reads in front of `req`.
  unfoldable pub send_from : ℕ → List (Reply ℕ) → M (Unit {0})
  send_from sent [] w = (blocked, record w { writes = [] })
  send_from sent (ok zero ∷ rs) w = (done tt, record w { writes = rs })
  send_from sent (ok (suc n) ∷ rs) w =
      (do
        r ← give_reply sockfd (drop sent req) (ok (suc n))
        (if ltb (sent + suc n) (length req) then send_from (sent + suc n) rs else λ v.
            (done tt, record v { writes = rs })))
        w
  send_from sent (interrupted ∷ rs) w = step_back sent (λ k. send_from k rs) w
  send_from sent (failed ∷ rs) w = step_back sent (λ k. send_from k rs) w

-- `sizeof(response) - 1`
abbrev pub response_size : ℕ
response_size = 1024 * 1024 - 1

module _ (sockfd : ℕ) where
  -- The second loop of `sendReq`, with the `received` bytes so far. `read` is asked for no more than
  -- `total - received`. A failed call takes one back.
  unfoldable pub receive_from : List ℕ → List (Reply (List ℕ)) → M (List ℕ)
  receive_from got [] w = (blocked, record w { reads = [] })
  receive_from got (ok [] ∷ rs) w = (done got, record w { reads = rs })
  receive_from got (ok (b ∷ bs) ∷ rs) w =
      (do
        let chunk = take (response_size - length got) (b ∷ bs)
        r ← take_reply sockfd (ok chunk)
        (if ltb (length (got ++ chunk)) response_size then receive_from (got ++ chunk) rs else λ v.
            (done (got ++ chunk), record v { reads = rs })))
        w
  receive_from got (interrupted ∷ rs) w =
      step_back (length got) (λ k. receive_from (take k got) rs) w
  receive_from got (failed ∷ rs) w = step_back (length got) (λ k. receive_from (take k got) rs) w

-- `sendReq`, with the bytes of the response.
unfoldable pub send_req : ℕ → List ℕ → M (List ℕ)
send_req sockfd req = do
  (λ w. send_from sockfd req 0 w.writes w)
  (λ w. receive_from sockfd [] w.reads w)

abbrev pub redirect_request : List ℕ
redirect_request =
    bytes "GET http://cs241.cs.illinois.edu/ HTTP/1.0"
    ++ (crlf
        ++ (bytes "Host: cs241.cs.illinois.edu"
            ++ (crlf
                ++ (bytes "Content-type: application/x-www-form-urlencoded"
                    ++ (crlf ++ (bytes "Content-length: 0" ++ (crlf ++ (crlf ++ crlf))))))))

abbrev pub google_request : List ℕ
google_request = bytes "GET google.com " ++ (crlf ++ (bytes "Host: google.com" ++ (crlf ++ crlf)))

abbrev pub moved : List ℕ
moved =
    bytes "HTTP/1.0 301 Moved Permanently"
    ++ (crlf ++ (bytes "Location: http://cs241.cs.illinois.edu/" ++ crlf))

abbrev pub connection_established : List ℕ
connection_established = bytes "HTTP/1.0 200 Connection established"

-- The bytes in the array of 2048 after `buffer[len] = 0`.
unfoldable pub request_text : Reply (List ℕ) → Outcome (List ℕ)
request_text (ok bs) = if ltb (length bs) 2048 then done (bs ++ (0 ∷ [])) else undefined
request_text interrupted = undefined
request_text failed = undefined

module _ (net : Net) (block_arr : List (List ℕ)) where
  -- The answer to a client whose request `parseReq` turns down. A `sendReq` on a negative
  -- descriptor fails and then reads in front of its request.
  unfoldable pub turn_down : ℕ → M (Unit {0})
  turn_down client_fd = do
    r ← write client_fd []
    z ← parse_req net block_arr redirect_request
    target_fd ← lift (deref (fd_of z))
    res ← send_req target_fd redirect_request
    r' ← write client_fd moved
    rv ← write client_fd res
    emit (closed client_fd)

  -- The answer to any other client, and the end of the program.
  unfoldable pub answer : ℕ → ℕ → M (Unit {0})
  answer client_fd target_fd = do
    res ← send_req target_fd google_request
    r ← write client_fd connection_established
    lift (exited 0)

  unfoldable pub act_on : ℕ → ℤ → M (Unit {0})
  act_on client_fd (pos target_fd) = answer client_fd target_fd
  act_on client_fd (negsuc zero) = turn_down client_fd
  act_on client_fd (negsuc (suc n)) = lift undefined

  -- A round of the accept loop of `main`.
  unfoldable pub main_round : ℕ → M (Unit {0})
  main_round client_fd = do
    r ← read client_fd
    req ← lift (request_text r)
    z ← parse_req net block_arr req
    act_on client_fd z

-- The loop, over the clients that `accept` returns, each with what the network does in its round: a
-- round calls `socket` once at most, since a blocked host is turned away before it.
unfoldable pub main_loop : List (List ℕ) → List (ℕ × Net) → M (Unit {0})
main_loop block_arr [] w = (blocked, w)
main_loop block_arr ((client_fd, net) ∷ clients) w =
    (main_round net block_arr client_fd >>= λ _. main_loop block_arr clients) w

-- `main`, with the clients that `accept` returns. A failed `setsockopt` is only reported. The calls
-- behind `fopen` are those of server.c, statement by statement.
unfoldable pub main : Host → List (ℕ × Net) → M (Unit {0})
main host clients = do
  block_arr ← lift (load host.file)
  lift (assert_true host.address)
  lift (or_exit host.binds)
  lift (or_exit host.listens)
  main_loop block_arr clients
