-- ===== src/Server/Sharing/Interleaving.antt =====
-- Runs of `HandleConnection` in server.c, with their calls in any order, and the variable by which
-- `main` hands them their clients.
use proxy.Base.{ℕ, ◌≡◌, ◌≢◌, ◌==◌, if◌then◌else◌, none, some, List, [], ◌∷◌, ◌++◌, update}
use proxy.Sys.{Event}
use proxy.Server.Sharing.{client_of, Table, opens, affect, IsFree}

-- The calls of the process, the newest first, each with the thread that made it.
abbrev pub Calls : Type 0
Calls = List (ℕ × Event)

-- The calls of one thread.
unfoldable pub calls_of : ℕ → Calls → List Event
calls_of i [] = []
calls_of i ((j, e) ∷ σ) = let rest = calls_of i σ in if i == j then e ∷ rest else rest

-- The calls made so far are the first ones of a run whose trace is `trace`.
abbrev pub Begins : List Event → List Event → Type 0
Begins early trace = (later : List Event) × (later ++ early ≡ trace)

-- Where a thread is with the variable `client_fd` of `main`, whose address is its argument: it does
-- not exist yet, it has not read the variable, or it serves the descriptor that it has read.
pub data Stage : Type 0 where
  absent created : Stage
  serving : ℕ → Stage

-- The table, the variable `client_fd`, and the threads.
pub record Process : Type 0 where
  pub table : Table
  pub client_fd : ℕ
  pub stages : ℕ → Stage

-- The process after some calls: the kernel gives only descriptors that are free. `accept` overwrites
-- the variable for the client of thread `i`, and a thread that first runs serves what it finds there.
pub data Interleaved (base : Table) : Calls → Process → Type 0 where
  begun : Interleaved base [] (record { table = base; client_fd = 0; stages = λ _. absent })
  accepted :
      {σ : Calls} {s : Process} (i fd : ℕ)
      → Interleaved base σ s
      → s.stages i ≡ absent
      → s.table fd ≡ none
      → Interleaved base σ (record {
        table = update s.table fd (some (client_of i));
        client_fd = fd;
        stages = update s.stages i created;
      })
  began :
      {σ : Calls} {s : Process} (i : ℕ)
      → Interleaved base σ s
      → s.stages i ≡ created
      → Interleaved base σ (record s { stages = update s.stages i (serving s.client_fd) })
  called :
      {σ : Calls} {s : Process} (i fd : ℕ) (e : Event)
      → Interleaved base σ s
      → s.stages i ≡ serving fd
      → IsFree s.table (opens e)
      → Interleaved base ((i, e) ∷ σ) (record s { table = affect i e s.table })

-- Each thread has read the variable before the next `accept` returns.
unfoldable pub InTime : {base : Table} {σ : Calls} {s : Process} → Interleaved base σ s → Type 0
InTime begun = Unit {0}
InTime (accepted {σ} {s} i fd r new free) = InTime r × ((j : ℕ) → s.stages j ≢ created)
InTime (began i r at) = InTime r
InTime (called i fd e r at free) = InTime r
