-- ===== src/Tests/Threads.antt =====
-- The threads of server.c
use proxy.Base.{◌+◌, ℕ, ◌≡◌, refl, some, [], ◌∷◌, bytes, zero, suc, replicate, arith, inr}
use proxy.Base.Int.{pos}
use proxy.Sys.{ok, World, failed, interrupted}
use proxy.SimpleSet.Listed.{listed_set}
use proxy.Server.{handle_connection}
use proxy.Server.Liveness.{Ends, handle_connection-Ends, handle_connection-returns}
use proxy.Sys.Answers.{answers}
use proxy.Server.Protocol.Refines.{Follows, handle_connection-Follows}
use proxy.Server.Main.{Loop, fresh}
use proxy.Server.Main
use proxy.Server.Main.Twice.{closed_twice}
use proxy.Sys.{closings, read}
use proxy.Server.{forbid}
use proxy.Utils.{write_all_to_socket}
use proxy.MultiprocServ.{Net, connect_first}
use proxy.MultiprocServ.Connecting.{IsFirst, connect_first-IsFirst}
use proxy.Sys.{done}
use proxy.Base.{Option, true, false}
use proxy.Utils.{crlf}
use proxy.Tests.Data.{before, port, good, net, request, hello, host, empty_world}

abbrev asking : World
asking = record {
  reads = ok request ∷ ok hello ∷ ok [] ∷ [];
  writes = ok 10 ∷ ok 5 ∷ [];
  trace = [];
}

handle_connection-Follows_example : Follows 4 (handle_connection listed_set net [] 4 asking)
handle_connection-Follows_example = handle_connection-Follows listed_set net [] 4 asking refl

abbrev two_addresses : Net
two_addresses = record {
  getaddrinfo = λ h p. some (7 ∷ 8 ∷ []);
  socket = λ addr. pos addr;
  connects = λ fd addr. elim fd [ zero ↦ false | suc n ↦ true ];
}

connect_first-IsFirst_example :
    (p : Option ℕ) × ((connect_first two_addresses host (bytes "443") (0 ∷ 8 ∷ []) empty_world).0
      ≡ done p)
    × IsFirst two_addresses (0 ∷ 8 ∷ []) p
connect_first-IsFirst_example =
    connect_first-IsFirst two_addresses host (bytes "443") (0 ∷ 8 ∷ []) empty_world

-- The client sends a request and a text, and closes; the kernel takes three bytes, fails, is
-- interrupted, and takes single bytes from then on.
abbrev halting : World
halting = record {
  reads = ok request ∷ ok hello ∷ ok [] ∷ [];
  writes = ok 3 ∷ failed ∷ interrupted ∷ replicate 17 (ok 1);
  trace = [];
}

handle_connection-Ends_example : Ends (handle_connection listed_set net [] 4 halting)
unfolding answers
handle_connection-Ends_example =
    handle_connection-Ends listed_set net [] 4 halting refl tt (omega arith)

handle_connection-returns_example : (handle_connection listed_set net [] 4 halting).0 ≡ done tt
unfolding answers
handle_connection-returns_example =
    handle_connection-returns before host port crlf good listed_set net [] 4 halting refl
      (inr (refl, refl, refl)) tt (omega arith)

-- Each of two clients is turned away without a request.
abbrev silent : World
silent = record { reads = failed ∷ []; writes = ok 17 ∷ []; trace = [] }

silent-done : (handle_connection listed_set net [] 6 silent).0 ≡ done tt
unfolding handle_connection read forbid write_all_to_socket
silent-done = refl

closed_twice_example :
    let t = (handle_connection listed_set net [] 6 silent).1.trace in
    (s : Loop) × Main.Reach fresh s
    × (s.accepted ≡ 6 ∷ 4 ∷ [])
    × (s.serving ≡ 6 ∷ 6 ∷ [])
    × (closings 6 t + closings 6 t ≡ 2)
    × (closings 4 t + closings 4 t ≡ 0)
closed_twice_example =
    closed_twice listed_set [] 4 6 net net silent silent (omega arith) (omega arith) (omega arith)
      refl refl (λ e. ground arith) (λ e. ground arith) (λ e. ground arith) (λ e. ground arith)
      silent-done silent-done
