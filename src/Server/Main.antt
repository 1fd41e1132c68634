-- ===== src/Server/Main.antt =====
-- `main` of server.c: the start, and the accept loop with the variable that it shares with the
-- threads it creates.
pub mod Race
pub mod Twice
pub mod Handshake
pub mod Started
use proxy.Base.{ℕ, suc, ◌<◌, Bool, true, false, Option, none, some, ◌≡◌, List, [], ◌∷◌}
use proxy.Sys.{Outcome, done, undefined, aborted, exited, assert_found, and_then}
use proxy.SimpleSet.{SimpleSet}
use proxy.Server.{load}

-- What the calls of the start give: the lines of `blocked_list.txt` if it opens, and whether
-- `getaddrinfo`, `setsockopt`, `bind` and `listen` succeed.
pub record Host : Type 0 where
  pub file : Option (List (List ℕ))
  pub address : Bool
  pub reuse : Bool
  pub binds : Bool
  pub listens : Bool

-- `assert(p)` on a condition
abbrev pub assert_true : Bool → Outcome (Unit {0})
assert_true true = done tt
assert_true false = aborted

-- `if (...) { perror(...); exit(1); }`
abbrev pub or_exit : Bool → Outcome (Unit {0})
or_exit true = done tt
or_exit false = exited 1

-- `main` before the accept loop. A failed `setsockopt` is only reported.
unfoldable pub start : (S : SimpleSet) → Host → Outcome S.State
start S host = and_then (assert_found host.file) λ lines.
    and_then (load S S.set_init lines) λ blocked_set.
      and_then (assert_true host.address) λ _.
        and_then (or_exit host.binds) λ _. and_then (or_exit host.listens) λ _. done blocked_set

-- The accept loop and its threads. Each thread is given the address of the one variable `client_fd`
-- and reads it when it first runs.
pub record Loop : Type 0 where
  pub client_fd : ℕ
  -- The threads that have not read the variable yet.
  pub created : ℕ
  -- What the threads have read, and what `accept` has returned, the newest first.
  pub serving : List ℕ
  pub accepted : List ℕ

abbrev pub fresh : Loop
fresh = record { client_fd = 0; created = 0; serving = []; accepted = [] }

-- A round of the loop: `accept` returns a descriptor, which the assertion wants above 0.
unfoldable pub accept_round : ℕ → Loop → Loop
accept_round fd s = record s { client_fd = fd; created = suc s.created; accepted = fd ∷ s.accepted }

-- The first step of `HandleConnection`, in one of the `n` + 1 threads that have not run yet.
unfoldable pub read_argument : ℕ → Loop → Loop
read_argument n s = record s { created = n; serving = s.client_fd ∷ s.serving }

pub data Step : Loop → Loop → Type 0 where
  accept : (s : Loop) (fd : ℕ) → 0 < fd → Step s (accept_round fd s)
  begin : (s : Loop) (n : ℕ) → s.created ≡ suc n → Step s (read_argument n s)

pub data Reach (s : Loop) : Loop → Type 0 where
  here : Reach s s
  next : {t u : Loop} → Reach s t → Step t u → Reach s u
