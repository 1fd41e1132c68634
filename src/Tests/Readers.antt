-- ===== src/Tests/Readers.antt =====
-- The two threads of one client of server.c, and what two clients are given.
use proxy.Base.{ℕ, ◌≡◌, refl, sym, some, [], ◌∷◌, update, arith}
use mathlib.Core.List.{Memᴰ}
use mathlib.Core.List.Memᴰ
use proxy.Sys.{ok, World, received, sent, connecting, spawned, shut_down, closed, write}
use proxy.SimpleSet.Listed.{listed_set}
use proxy.Server.{relay, host_to_cli, established}
use proxy.Server.Sharing.{client_of, peer_of}
use proxy.Server.Sharing.Interleaving.{
  Calls, calls_of, Process, Interleaved, begun, accepted, began, called, InTime, absent, created,
  serving,
}
use proxy.Server.Sharing.Served.{AreRuns}
use proxy.Sys.{delivered}
use proxy.Server.Sharing.Bytes.{heard, beyond}
use proxy.Server.Sharing.Hearing.{handle_connection-heard}
use proxy.Server.Sharing.Readers.{host_to_cli-own}
use proxy.Tests.Data.{host, port, request, hello}
use proxy.Tests.Sharing.{
  base, base-IsPlain, keys, nets, worlds, worlds-fresh, first_trace, reused, reused-Interleaved,
  reused-InTime, reused-AreRuns,
}

abbrev joined : Calls
joined =
    (0, spawned 4 5)
    ∷ (0, sent 4 established)
    ∷ (0, connecting host port)
    ∷ (0, received 4 request)
    ∷ []

abbrev joined_live : Process
joined_live = record {
  table = update (update base 4 (some (client_of 0))) 5 (some (peer_of 0));
  client_fd = 4;
  stages = update (update (λ _. absent) 0 created) 0 (serving 4);
}

joined-Interleaved : Interleaved base joined joined_live
joined-Interleaved =
    let s₀ = began 0 (accepted 0 4 begun refl refl) refl in
    let s₁ = called 0 4 (received 4 request) s₀ refl tt in
    let s₂ = called 0 4 (connecting host port) s₁ refl tt in
    let s₃ = called 0 4 (sent 4 established) s₂ refl tt in called 0 4 (spawned 4 5) s₃ refl refl

only-client : (i fd : ℕ) → joined_live.stages i ≡ serving fd → (i ≡ 0) × (fd ≡ 4)
only-client i fd h = ground arith

joined-AreRuns : AreRuns listed_set keys nets worlds joined joined_live
unfolding calls_of
joined-AreRuns i fd h =
    let (e, e') = only-client i fd h in
    rw (e, e')
      (
        closed 5 ∷ shut_down 5 ∷ closed 4 ∷ shut_down 4 ∷ sent 5 hello ∷ received 4 hello ∷ [],
        sym first_trace,
      )

still_open : ¬ Memᴰ (0, closed 4) joined
still_open (Memᴰ.head e) = cc
still_open (Memᴰ.tail (Memᴰ.head e)) = cc
still_open (Memᴰ.tail (Memᴰ.tail (Memᴰ.head e))) = cc
still_open (Memᴰ.tail (Memᴰ.tail (Memᴰ.tail (Memᴰ.head e)))) = cc
still_open (Memᴰ.tail (Memᴰ.tail (Memᴰ.tail (Memᴰ.tail m)))) = Memᴰ.not-nil m

joined-InTime : InTime joined-Interleaved
unfolding InTime joined-Interleaved
joined-InTime = (tt, (λ i e. cc))

abbrev answering : World
answering = record { reads = ok hello ∷ ok [] ∷ []; writes = ok 5 ∷ []; trace = [] }

answered : Memᴰ (sent 4 hello) (host_to_cli (some (4, 5)) answering).1.trace
unfolding host_to_cli relay write
answered = Memᴰ.head refl

host_to_cli-own_example : joined_live.table 4 ≡ some (client_of 0)
host_to_cli-own_example =
    host_to_cli-own listed_set keys nets worlds worlds-fresh base joined-Interleaved joined-InTime
      joined-AreRuns base-IsPlain 0 4 5 (some (4, 5)) answering (Memᴰ.head refl) refl refl
      (sent 4 hello) 4 answered refl still_open

handle_connection-heard_example :
    (heard (client_of 1) reused-Interleaved ≡ delivered 4 (calls_of 1 reused))
    × (heard (peer_of 1) reused-Interleaved ≡ beyond 4 (calls_of 1 reused))
handle_connection-heard_example =
    handle_connection-heard listed_set keys nets worlds worlds-fresh base base-IsPlain
      reused-Interleaved reused-InTime reused-AreRuns 1 4 refl

-- The first client had the same descriptor, and was given other bytes.
first_heard : heard (client_of 0) reused-Interleaved ≡ established
unfolding calls_of delivered
first_heard =
    (handle_connection-heard listed_set keys nets worlds worlds-fresh base base-IsPlain
      reused-Interleaved reused-InTime reused-AreRuns 0 4 refl).0
