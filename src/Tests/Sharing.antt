-- ===== src/Tests/Sharing.antt =====
-- Two clients of server.c at the same time: the second gets the descriptor that the first has left.
use proxy.Base.{
  ℕ, ◌≡◌, ◌⊎◌, refl, inl, inr, none, some, [], ◌∷◌, zero, suc, length, update, sym, arith, List,
  ◌≢◌,
}
use proxy.CString.{c_str, strstr, starts_with, array_str, strncpy}
use proxy.Sys.{
  ok, World, received, sent, connecting, spawned, shut_down, closed, done, read, write, terminate,
}
use proxy.SimpleSet.Listed.{listed_set}
use proxy.Utils.{Net, parse_host, copy_hostname, copy_port, write_all_to_socket, connect_to_server}
use proxy.Server.{
  relay, forbidden, established, forbid, carry, tunnel, hang_up, check_blocklist, serve,
  handle_connection,
}
use proxy.Server.Sharing.{Table, client_of, peer_of, other}
use proxy.Server.Sharing.Invariant.{IsPlain}
use proxy.Server.Sharing.Interleaving.{
  Calls, calls_of, Process, Interleaved, begun, accepted, began, called, InTime, absent, created,
  serving,
}
use proxy.Server.Sharing.Served.{
  trace_of, AreRuns, handle_connection-own, handle_connection-restores,
}
use mathlib.Core.List.Memᴰ
use proxy.Server.{load, strip_line}
use proxy.Server.Main.{Host, start}
use proxy.Server.Lines.{OnList}
use proxy.Server.Blocklist.{AllStored}
use proxy.SimpleSet.Listed.{listed_set-IsLawful}
use proxy.Server.Sharing.Contacts.{process-contacts}
use proxy.Base.{◌++◌, bytes, str_eq, true}
use proxy.Tests.Data.{host, port, request, hello, net}

-- The listening socket and the standard streams are open.
abbrev pub base : Table
base fd = elim fd [
  | zero ↦ some (other 0)
  | suc zero ↦ some (other 1)
  | suc (suc zero) ↦ some (other 2)
  | suc (suc (suc zero)) ↦ some (other 3)
  | suc (suc (suc (suc n))) ↦ none
]

-- Another host is blocked.
abbrev lines : List (List ℕ)
lines = (bytes "d.e" ++ (10 ∷ [])) ∷ []

abbrev pub keys : List (List ℕ)
keys = bytes "d.e" ∷ []

abbrev pub worlds : ℕ → World
worlds i = elim i [
  | zero ↦ record {
    reads = ok request ∷ ok hello ∷ ok [] ∷ [];
    writes = ok (length established) ∷ ok 5 ∷ [];
    trace = [];
  }
  | suc n ↦ record { reads = ok [] ∷ []; writes = ok (length forbidden) ∷ []; trace = [] }
]

abbrev pub nets : ℕ → Net
nets i = net

pub first_trace :
    trace_of listed_set keys nets worlds 0 4
    ≡ closed 5
      ∷ shut_down 5
      ∷ closed 4
      ∷ shut_down 4
      ∷ sent 5 hello
      ∷ received 4 hello
      ∷ spawned 4 5
      ∷ sent 4 established
      ∷ connecting host port
      ∷ received 4 request
      ∷ []
unfolding handle_connection serve terminate c_str parse_host copy_hostname copy_port strstr
    starts_with strncpy array_str forbid check_blocklist str_eq read write_all_to_socket tunnel
    carry relay hang_up connect_to_server write
first_trace = refl

second_trace :
    trace_of listed_set keys nets worlds 1 4
    ≡ closed 4 ∷ shut_down 4 ∷ sent 4 forbidden ∷ received 4 [] ∷ []
unfolding handle_connection forbid read write_all_to_socket write
second_trace = refl

-- The first client has left, and its descriptor stands for the second.
abbrev pub reused : Calls
reused =
    (1, sent 4 forbidden)
    ∷ (1, received 4 [])
    ∷ (0, closed 4)
    ∷ (0, shut_down 4)
    ∷ (0, sent 5 hello)
    ∷ (0, received 4 hello)
    ∷ (0, spawned 4 5)
    ∷ (0, sent 4 established)
    ∷ (0, connecting host port)
    ∷ (0, received 4 request)
    ∷ []

abbrev reused_live : Process
reused_live = record {
  table =
      update (update (update (update base 4 (some (client_of 0))) 5 (some (peer_of 0))) 4 none) 4
        (some (client_of 1));
  client_fd = 4;
  stages =
      update (update (update (update (λ _. absent) 0 created) 0 (serving 4)) 1 created) 1
        (serving 4);
}

pub reused-Interleaved : Interleaved base reused reused_live
reused-Interleaved =
    let s₀ = began 0 (accepted 0 4 begun refl refl) refl in
    let s₁ = called 0 4 (received 4 request) s₀ refl tt in
    let s₂ = called 0 4 (connecting host port) s₁ refl tt in
    let s₃ = called 0 4 (sent 4 established) s₂ refl tt in
    let s₄ = called 0 4 (spawned 4 5) s₃ refl refl in
    let s₅ = called 0 4 (received 4 hello) s₄ refl tt in
    let s₆ = called 0 4 (sent 5 hello) s₅ refl tt in
    let s₇ = called 0 4 (shut_down 4) s₆ refl tt in
    let s₈ = called 0 4 (closed 4) s₇ refl tt in
    let s₉ = began 1 (accepted 1 4 s₈ refl refl) refl in
    let s₁₀ = called 1 4 (received 4 []) s₉ refl tt in called 1 4 (sent 4 forbidden) s₁₀ refl tt

clients-cases :
    (i fd : ℕ) → reused_live.stages i ≡ serving fd → ((i ≡ 0) × (fd ≡ 4)) ⊎ ((i ≡ 1) × (fd ≡ 4))
clients-cases i fd h = ground arith

pub reused-AreRuns : AreRuns listed_set keys nets worlds reused reused_live
unfolding calls_of
reused-AreRuns i fd h = elim (clients-cases i fd h) [
  | inl (e, e') ↦ rw (e, e') (closed 5 ∷ shut_down 5 ∷ [], sym first_trace)
  | inr (e, e') ↦ rw (e, e') (closed 4 ∷ shut_down 4 ∷ [], sym second_trace)
]

pub worlds-fresh : (i : ℕ) → (worlds i).trace ≡ []
worlds-fresh zero = refl
worlds-fresh (suc n) = refl

pub base-IsPlain : IsPlain base
base-IsPlain zero = inr (0, refl)
base-IsPlain (suc zero) = inr (1, refl)
base-IsPlain (suc (suc zero)) = inr (2, refl)
base-IsPlain (suc (suc (suc zero))) = inr (3, refl)
base-IsPlain (suc (suc (suc (suc n)))) = inl refl

settled : (i : ℕ) → reused_live.stages i ≢ created
settled i e = ground arith

one_settled : (i : ℕ) → update (update (λ _. absent) 0 created) 0 (serving 4) i ≢ created
one_settled i e = ground arith

pub reused-InTime : InTime reused-Interleaved
unfolding InTime reused-Interleaved
reused-InTime = ((tt, (λ i e. cc)), one_settled)

handle_connection-own_example :
    (reused_live.table 4 ≡ some (client_of 1)) ⊎ (reused_live.table 4 ≡ some (peer_of 1))
unfolding calls_of
handle_connection-own_example =
    handle_connection-own listed_set keys nets worlds worlds-fresh base reused-Interleaved
      reused-InTime reused-AreRuns 1 4 (shut_down 4) 4 base-IsPlain refl
      (closed 4 ∷ [], sym second_trace) refl

abbrev finished : Calls
finished = (0, closed 5) ∷ (1, closed 4) ∷ (0, shut_down 5) ∷ (1, shut_down 4) ∷ reused

abbrev finished_live : Process
finished_live = record reused_live { table = update (update reused_live.table 4 none) 5 none }

finished-Interleaved : Interleaved base finished finished_live
finished-Interleaved =
    let s₁ = called 1 4 (shut_down 4) reused-Interleaved refl tt in
    let s₂ = called 0 4 (shut_down 5) s₁ refl tt in
    let s₃ = called 1 4 (closed 4) s₂ refl tt in called 0 4 (closed 5) s₃ refl tt

finished-whole :
    (i fd : ℕ)
    → reused_live.stages i ≡ serving fd
    → calls_of i finished ≡ trace_of listed_set keys nets worlds i fd
unfolding calls_of
finished-whole i fd h = elim (clients-cases i fd h) [
  | inl (e, e') ↦ rw (e, e') (sym first_trace)
  | inr (e, e') ↦ rw (e, e') (sym second_trace)
]

finished-done :
    (i fd : ℕ)
    → reused_live.stages i ≡ serving fd
    → (handle_connection listed_set (nets i) keys fd (worlds i)).0 ≡ done tt
unfolding handle_connection serve terminate c_str parse_host copy_hostname copy_port strstr
    starts_with strncpy array_str forbid check_blocklist str_eq read write_all_to_socket tunnel
    carry relay hang_up connect_to_server write
finished-done i fd h = elim (clients-cases i fd h) [
  | inl (e, e') ↦ rw e refl
  | inr (e, e') ↦ rw e refl
]

finished-InTime : InTime finished-Interleaved
unfolding InTime finished-Interleaved
finished-InTime = reused-InTime

handle_connection-restores_example : finished_live.table 4 ≡ base 4
handle_connection-restores_example =
    handle_connection-restores listed_set keys nets worlds worlds-fresh base finished-Interleaved
      finished-InTime base-IsPlain settled (λ i fd h. (finished-done i fd h, finished-whole i fd h))
      4

abbrev up : Host
up = record { file = some lines; address = true; reuse = true; binds = true; listens = true }

start-up : start listed_set up ≡ done keys
unfolding start load strip_line c_str str_eq
start-up = refl

stored_all : AllStored listed_set [] lines
unfolding strip_line c_str str_eq
stored_all = (refl, tt)

process-contacts_example : ¬ OnList host lines
process-contacts_example =
    process-contacts listed_set listed_set-IsLawful up lines keys refl start-up stored_all nets
      worlds worlds-fresh base reused-Interleaved reused-AreRuns 0 host port
      (Memᴰ.tail (
        Memᴰ.tail
          (Memᴰ.tail (Memᴰ.tail (Memᴰ.tail (Memᴰ.tail (Memᴰ.tail (Memᴰ.tail (Memᴰ.head refl)))))))))
