-- ===== src/Tests/Multiproc.antt =====
-- multiproc_serv.c and multiproc_client.c
use proxy.Base.{
  ℕ, ◌+◌, ◌≡◌, refl, ◌⊎◌, inl, true, some, List, [], ◌∷◌, ◌++◌, arith, bytes, replicate, map, zero,
  suc, length, false, str_eq,
}
use proxy.Base.Int.{pos, negsuc}
use proxy.CString.{c_str}
use proxy.Sys.{ok, World, done, exited, contacts, delivered, closings}
use proxy.Server.{strip_line}
use proxy.Server.Lines.{OnList}
use proxy.Server.Blocklist.{Readable}
use proxy.MultiprocServ.{Net, connection_thread, accept_loop, max_threads}
use proxy.MultiprocServ
use proxy.MultiprocServ.{Host, listen_first, bind_first}
use proxy.MultiprocServ.Threads.{load_of}
use proxy.MultiprocServ.{get_request, scan_lines}
use proxy.MultiprocServ.Answering.{connection_thread-fetches}
use proxy.MultiprocServ.Started.{served, Enough, BoundFirst, main-served}
use proxy.MultiprocServ.Fetching.{connection_thread-contacts}
use proxy.MultiprocServ.Leaks.{all_closings, connection_thread-leaks}
use proxy.MultiprocClient.{main}
use proxy.MultiprocClient.Exchange.{main-exchange}
use proxy.Tests.Data.{empty_world, host, hello, lines}

abbrev clients : List ℕ
clients = replicate 21 6

-- Of two addresses the first gives no socket.
abbrev up : Host
up = record {
  addresses = some (0 ∷ 8 ∷ []);
  socket = λ addr. elim addr [ zero ↦ negsuc 0 | suc n ↦ pos 3 ];
  reuse = λ fd. true;
  binds = λ fd addr. true;
  listens = λ fd. true;
  handles = true;
}

started :
    (MultiprocServ.main up (map some clients) empty_world).0
    ≡ done (map (load_of 3) (served max_threads (map some clients)))
unfolding MultiprocServ.main listen_first bind_first accept_loop
started = refl

main-served_example :
    (addrs : List ℕ) × (sockfd : ℕ) × (up.addresses ≡ some addrs)
    × BoundFirst up addrs sockfd
    × (up.listens sockfd ≡ true)
    × (up.handles ≡ true)
    × (map (load_of 3) (served max_threads (map some clients))
        ≡ map (load_of sockfd) (served max_threads (map some clients)))
    × Enough max_threads (map some clients)
main-served_example = main-served up (map some clients) empty_world started

abbrev net : Net
net = record {
  getaddrinfo = λ h p. some (7 ∷ []);
  socket = λ addr. pos 5;
  connects = λ fd addr. true;
}

abbrev asking : World
asking = record { reads = ok host ∷ []; writes = ok 13 ∷ ok 13 ∷ []; trace = [] }

connection_thread-contacts_example :
    let w' = (connection_thread net (some lines) 4 asking).1 in
    (contacts w'.trace ≡ contacts [])
    ⊎ ((host : List ℕ) × (n : ℕ) × (contacts w'.trace ≡ replicate n host ++ contacts [])
        × (¬ OnList host lines))
connection_thread-contacts_example = connection_thread-contacts net lines 4 asking

lines-Readable : Readable lines
unfolding c_str
lines-Readable = ((λ e. cc), ((λ e. cc), tt))

host-OnList : OnList (c_str host) lines
unfolding c_str strip_line
host-OnList = inl (10, refl)

abbrev exchanging : World
exchanging = record { reads = ok hello ∷ ok host ∷ []; writes = ok 5 ∷ []; trace = [] }

main-exchange_example :
    let (r, w') = main net (bytes "client" ∷ host ∷ hello ∷ []) exchanging in
    (r ≡ exited 0)
    × (contacts w'.trace ≡ host ∷ contacts [])
    × (delivered 5 w'.trace ≡ delivered 5 [] ++ hello)
    × (closings 5 w'.trace ≡ closings 5 [] + 1)
main-exchange_example =
    main-exchange net (bytes "client") host hello exchanging 7 5 [] hello host refl refl refl refl
      refl (omega arith) (omega arith)

abbrev name : List ℕ
name = bytes "x.y"

abbrev browsing : World
browsing = record {
  reads = ok name ∷ ok hello ∷ [];
  writes = ok 13 ∷ ok (length (get_request (c_str name))) ∷ ok (length (c_str hello)) ∷ [];
  trace = [];
}

name_free : MultiprocServ.is_blocked (some lines) (c_str name) ≡ done false
unfolding MultiprocServ.is_blocked scan_lines strip_line c_str str_eq
name_free = refl

connection_thread-fetches_example :
    let (r, w') = connection_thread net (some lines) 4 browsing in
    (r ≡ done tt)
    × (contacts w'.trace ≡ c_str name ∷ contacts [])
    × (delivered 4 w'.trace ≡ delivered 4 [] ++ (bytes "Hello, world!" ++ c_str hello))
    × (delivered 5 w'.trace ≡ delivered 5 [] ++ get_request (c_str name))
    × (closings 4 w'.trace ≡ closings 4 [] + 1)
    × (closings 5 w'.trace ≡ closings 5 [])
connection_thread-fetches_example =
    connection_thread-fetches net (some lines) 4 5 7 [] name hello browsing refl refl (omega arith)
      (omega arith) name_free refl refl refl (λ e. omega arith)

browsing_ends : (connection_thread net (some lines) 4 browsing).0 ≡ done tt
browsing_ends =
    (connection_thread-fetches net (some lines) 4 5 7 [] name hello browsing refl refl (omega arith)
      (omega arith) name_free refl refl refl (λ e. omega arith)).0

connection_thread-leaks_example :
    let w' = (connection_thread net (some lines) 4 browsing).1 in
    all_closings w'.trace + length (contacts []) ≡ all_closings [] + length (contacts w'.trace)
connection_thread-leaks_example = connection_thread-leaks net (some lines) 4 browsing browsing_ends
