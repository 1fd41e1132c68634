-- ===== src/Server/Sharing.antt =====
-- The whole process of server.c: the threads that run `HandleConnection`, each as far as
-- Server/Protocol says, over the one table of descriptors. A thread reads its argument before the
-- next `accept`; Readers adds the threads that run `HostToCli`.
pub mod Phases
pub mod Invariant
pub mod Isolation
pub mod Interleaving
pub mod Handing
pub mod Implements
pub mod Served
pub mod Contacts
pub mod Readers
pub mod Bytes
pub mod Hearing
use proxy.Base.{ℕ, ◌≡◌, Option, none, some, update}
use proxy.Sys.{Event, received, sent, connecting, spawned, shut_down, closed}
use proxy.Server.Protocol.{Phase, idle, advance}

-- What a descriptor stands for: the client or the destination of a thread, or what was open before.
pub data Connection : Type 0 where
  client_of peer_of : ℕ → Connection
  other : ℕ → Connection

abbrev pub Table : Type 0
Table = ℕ → Option Connection

-- A thread's argument, and where it is.
pub record Thread : Type 0 where
  pub client_fd : ℕ
  pub phase : Phase

pub record Shared : Type 0 where
  pub table : Table
  pub threads : ℕ → Option Thread

-- The descriptors that a call opens and closes, and the one that it is about.
abbrev pub opens : Event → Option ℕ
opens (spawned c d) = some d
opens (received g bs) = none
opens (sent g bs) = none
opens (connecting h p) = none
opens (shut_down g) = none
opens (closed g) = none

abbrev pub uses : Event → Option ℕ
uses (received g bs) = some g
uses (sent g bs) = some g
uses (shut_down g) = some g
uses (closed g) = some g
uses (spawned c d) = none
uses (connecting h p) = none

-- The table after a call of a thread. The destination's descriptor counts as opened when the second
-- thread is created.
abbrev pub affect : ℕ → Event → Table → Table
affect i (spawned c d) t = update t d (some (peer_of i))
affect i (closed g) t = update t g none
affect i (received g bs) t = t
affect i (sent g bs) t = t
affect i (connecting h p) t = t
affect i (shut_down g) t = t

-- The descriptor that the call opens, if it opens one, is free.
abbrev pub IsFree : Table → Option ℕ → Type 0
IsFree t none = Unit {0}
IsFree t (some d) = t d ≡ none

-- A new thread for a client, and a call of a thread.
pub data Step (s : Shared) : Shared → Type 0 where
  accept :
      (i fd : ℕ)
      → s.threads i ≡ none
      → s.table fd ≡ none
      → Step s (record {
        table = update s.table fd (some (client_of i));
        threads = update s.threads i (some (record { client_fd = fd; phase = idle }));
      })
  call :
      (i : ℕ) (t : Thread) (e : Event) (p : Phase)
      → s.threads i ≡ some t
      → advance t.client_fd t.phase e ≡ some p
      → IsFree s.table (opens e)
      → Step s (record {
        table = affect i e s.table;
        threads = update s.threads i (some (record t { phase = p }));
      })

-- The process when `main` comes to its loop.
abbrev pub started : Table → Shared
started table = record { table = table; threads = λ _. none }

pub data Reach (s : Shared) : Shared → Type 0 where
  here : Reach s s
  next : {t u : Shared} → Reach s t → Step t u → Reach s u
