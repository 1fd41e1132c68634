-- ===== src/MultiprocServ.antt =====
-- multiproc_serv.c: the server that fetches one page for each client, in at most 20 threads.
pub mod Threads
pub mod Fetching
pub mod Answering
pub mod Connecting
pub mod Leaks
pub mod Started
pub mod Reaping
use proxy.Base.{
  ℕ, zero, suc, ◌+◌, ◌-◌, Bool, true, false, Option, none, some, List, [], ◌∷◌, ◌++◌, bytes,
}
use proxy.Base.{if◌then◌else◌, length, take, ltb, str_eq}
use proxy.Base.Int.{ℤ, pos, negsuc}
use proxy.CString.{c_str}
use proxy.Sys.{
  Reply, ok, interrupted, failed, World, Outcome, done, blocked, aborted, undefined, exited,
}
use proxy.Sys.{M, ◌>>=◌, ◌>>◌, return, resume, lift, deref, and_then, emit, read, write, terminate}
use proxy.Sys.{Event, connecting, closed}
use proxy.Utils.{crlf}
use proxy.Server.{strip_line}

-- MAXDATASIZE
abbrev pub max_data_size : ℕ
max_data_size = 100

-- MAX_THREADS
abbrev pub max_threads : ℕ
max_threads = 20

-- What the network does: the addresses of a host and port, `socket` for an address, and whether
-- `connect` succeeds.
pub record Net : Type 0 where
  pub getaddrinfo : List ℕ → List ℕ → Option (List ℕ)
  pub socket : ℕ → ℤ
  pub connects : ℕ → ℕ → Bool

-- The text in the array of a `recv` of at most MAXDATASIZE - 1 bytes.
unfoldable pub received_text : Reply (List ℕ) → Outcome (List ℕ)
received_text (ok bs) = terminate max_data_size bs
received_text interrupted = exited 1
received_text failed = exited 1

-- The loop over the lines of blocked_list.txt: whether it comes to a line that is the request.
unfoldable pub scan_lines : List ℕ → List (List ℕ) → Outcome Bool
scan_lines buf [] = done false
scan_lines buf (line ∷ lines) =
    let rest = scan_lines buf lines in
    and_then (strip_line line) λ block_line. if str_eq buf block_line then done true else rest

-- With no file, no line is looked at.
unfoldable pub is_blocked : Option (List (List ℕ)) → List ℕ → Outcome Bool
is_blocked none buf = done false
is_blocked (some lines) buf = scan_lines buf lines

module _ (net : Net) where
  -- The first address that a socket connects to, none if the loop comes to the end of the list.
  unfoldable pub connect_first : List ℕ → List ℕ → List ℕ → M (Option ℕ)
  connect_first host port [] = return none
  connect_first host port (addr ∷ addrs) =
      let rest = connect_first host port addrs in
      elim (net.socket addr) [
        | pos fd ↦ do
          emit (connecting host port)
          (if net.connects fd addr then return (some fd) else (emit (closed fd) >> rest))
        | negsuc n ↦ rest
      ]

abbrev pub get_request : List ℕ → List ℕ
get_request buf =
    bytes "GET "
    ++ (buf
        ++ (bytes " HTTP/1.0"
            ++ (crlf
                ++ (bytes "Connection: close"
                    ++ (crlf ++ (bytes "Accept: */*" ++ (crlf ++ crlf)))))))

-- The 13 bytes that are sent of "Website blocked\n".
abbrev pub refusal : List ℕ
refusal = take 13 (bytes "Website blocked" ++ (10 ∷ []))

-- The request to the host and the first part of its answer, which goes to the client.
unfoldable pub fetch : ℕ → ℕ → List ℕ → M (Unit {0})
fetch new_fd sockfd2 buf = do
  r ← write sockfd2 (get_request buf)
  r2 ← read sockfd2
  buf2 ← lift (received_text r2)
  r3 ← write new_fd buf2
  emit (closed new_fd)

abbrev pub fetch_from : ℕ → List ℕ → Option ℕ → M (Unit {0})
fetch_from new_fd buf none = return tt
fetch_from new_fd buf (some sockfd2) = fetch new_fd sockfd2 buf

-- The end of a thread whose request is blocked.
unfoldable pub refuse : ℕ → M (Unit {0})
refuse new_fd = do r ← write new_fd refusal; return tt

module _ (net : Net) where
  -- The part of `connection_thread` after the block list. A failed `getaddrinfo` leaves the list
  -- of addresses uninitialised.
  unfoldable pub pass_on : ℕ → List ℕ → M (Unit {0})
  pass_on new_fd buf = do
    addrs ← lift (deref (net.getaddrinfo buf (bytes "443")))
    p2 ← connect_first net buf (bytes "443") addrs
    fetch_from new_fd buf p2

  -- `connection_thread`, with the file as it stands when the thread opens it. The stream of `fopen`
  -- is never closed, and its descriptor is not among the events.
  unfoldable pub connection_thread : Option (List (List ℕ)) → ℕ → M (Unit {0})
  connection_thread block_file new_fd = do
    r ← write new_fd (bytes "Hello, world!")
    r' ← read new_fd
    buf ← lift (received_text r')
    found ← lift (is_blocked block_file buf)
    (if found then refuse new_fd else pass_on new_fd buf)

-- `payload`
pub record Payload : Type 0 where
  pub sockfd : ℕ
  pub new_fd : ℕ

-- The calls of the start: the addresses of the port, and what `socket`, `setsockopt`, `bind`,
-- `listen` and `sigaction` give.
pub record Host : Type 0 where
  pub addresses : Option (List ℕ)
  pub socket : ℕ → ℤ
  pub reuse : ℕ → Bool
  pub binds : ℕ → ℕ → Bool
  pub listens : ℕ → Bool
  pub handles : Bool

-- The first address that a socket is bound to. A failed `setsockopt` ends the program.
unfoldable pub bind_first : Host → List ℕ → M (Option ℕ)
bind_first host [] = return none
bind_first host (addr ∷ addrs) =
    let rest = bind_first host addrs in
    elim (host.socket addr) [
      | pos fd ↦
          if host.reuse fd
          then (if host.binds fd addr then return (some fd) else (emit (closed fd) >> rest))
          else lift (exited 1)
      | negsuc n ↦ rest
    ]

-- `if (...) { perror(...); exit(status); }`
abbrev pub or_exit_with : ℕ → {A : Type 0} → Option A → Outcome A
or_exit_with status none = exited status
or_exit_with status (some a) = done a

-- The accept loop: what each thread is given, in order. `accept` gives a descriptor or fails.
unfoldable pub accept_loop : ℕ → List Payload → List (Option ℕ) → Outcome (List Payload)
accept_loop sockfd loads [] = if ltb (length loads) max_threads then blocked else done loads
accept_loop sockfd loads (none ∷ rs) = done loads
accept_loop sockfd loads (some fd ∷ rs) =
    let rest = accept_loop sockfd (loads ++ (record { sockfd = sockfd; new_fd = fd } ∷ [])) rs in
    if ltb (length loads) max_threads then rest else done loads

-- `main` up to the accept loop: the descriptor that it listens on.
unfoldable pub listen_first : Host → M ℕ
listen_first host = do
  addrs ← lift (or_exit_with 1 host.addresses)
  p ← bind_first host addrs
  sockfd ← lift (or_exit_with 1 p)
  (if host.listens sockfd then return tt else lift (exited 1))
  (if host.handles then return sockfd else lift (exited 1))

-- `main` of multiproc_serv.c, with what each `accept` gives: the payloads of the threads that it
-- has created when it returns 0.
unfoldable pub main : Host → List (Option ℕ) → M (List Payload)
main host accepts = do sockfd ← listen_first host; lift (accept_loop sockfd [] accepts)
