-- ===== src/MultiprocClient.antt =====
-- multiproc_client.c: the client that sends one message and prints two answers.
pub mod Exchange
use proxy.Base.{ℕ, Option, none, some, List, [], ◌∷◌, bytes}
use proxy.Sys.{World, Outcome, done, blocked, aborted, undefined, exited}
use proxy.Sys.{M, ◌>>=◌, ◌>>◌, resume, lift, emit, read, write, Event, closed}
use proxy.MultiprocServ.{Net, connect_first, received_text, or_exit_with}

-- The host and the message, from `argv`: there are exactly two arguments.
unfoldable pub arguments : List (List ℕ) → Outcome (List ℕ × List ℕ)
arguments [] = exited 1
arguments (name ∷ []) = exited 1
arguments (name ∷ host ∷ []) = exited 1
arguments (name ∷ host ∷ message ∷ []) = done (host, message)
arguments (name ∷ host ∷ message ∷ arg ∷ args) = exited 1

-- The part of `main` after the connection.
unfoldable pub exchange : ℕ → List ℕ → M (Unit {0})
exchange sockfd message = do
  r ← write sockfd message
  r₁ ← read sockfd
  buf₁ ← lift (received_text r₁)
  r₂ ← read sockfd
  buf₂ ← lift (received_text r₂)
  emit (closed sockfd)
  lift (exited 0)

-- `main`. Its addresses and its arrays are tried and filled the way multiproc_serv.c does it.
unfoldable pub main : Net → List (List ℕ) → M (Unit {0})
main net argv = do
  args ← lift (arguments argv)
  servinfo ← lift (or_exit_with 1 (net.getaddrinfo args.0 (bytes "3490")))
  p ← connect_first net args.0 (bytes "3490") servinfo
  sockfd ← lift (or_exit_with 2 p)
  exchange sockfd args.1
