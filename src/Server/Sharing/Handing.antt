-- ===== src/Server/Sharing/Handing.antt =====
-- The process of server.c where each thread has the descriptor of its own client.
use proxy.Base.{
  ℕ, ◌≡◌, refl, ap, subst, ◌∙◌, ◌⊎◌, ◌≢◌, ◌==◌, Option, none, some, List, [], ◌∷◌, update, arith,
  Bool-cases, inl, inr,
}
use mathlib.Core.Path.{fun_ext}
use proxy.Sys.{Event}
use proxy.Server.Protocol.{Phase, phase}
use proxy.Server.Sharing.{client_of, Table, Thread, Shared, opens, affect, IsFree}
use proxy.Server.Sharing.Interleaving.{
  Calls, calls_of, Stage, absent, created, serving, Process, Interleaved, begun, accepted, began,
  called, InTime,
}

-- The table, and the descriptor that each thread was given.
pub record Descriptors : Type 0 where
  pub table : Table
  pub clients : ℕ → Option ℕ

-- The runs in which `accept` hands each client to its own thread.
pub data Handed (base : Table) : Calls → Descriptors → Type 0 where
  start_handed : Handed base [] (record { table = base; clients = λ _. none })
  accept_handed :
      {σ : Calls} {l : Descriptors} (i fd : ℕ)
      → Handed base σ l
      → l.clients i ≡ none
      → l.table fd ≡ none
      → Handed base σ (record {
        table = update l.table fd (some (client_of i));
        clients = update l.clients i (some fd);
      })
  call_handed :
      {σ : Calls} {l : Descriptors} (i fd : ℕ) (e : Event)
      → Handed base σ l
      → l.clients i ≡ some fd
      → IsFree l.table (opens e)
      → Handed base ((i, e) ∷ σ) (record l { table = affect i e l.table })

-- A thread that was given `fd` is where its calls have led it.
abbrev pub placed : ℕ → Option Phase → Option Thread
placed fd none = none
placed fd (some p) = some (record { client_fd = fd; phase = p })

abbrev pub thread : Option ℕ → List Event → Option Thread
thread none es = none
thread (some fd) es = placed fd (phase fd es)

abbrev pub view : Calls → Descriptors → Shared
view σ l = record { table = l.table; threads = λ i. thread (l.clients i) (calls_of i σ) }

-- The descriptor of a thread, before it has read it what the variable holds.
abbrev pub held : ℕ → Stage → Option ℕ
held client_fd absent = none
held client_fd created = some client_fd
held client_fd (serving fd) = some fd

abbrev pub descriptors : Process → Descriptors
descriptors s = record { table = s.table; clients = λ i. held s.client_fd (s.stages i) }

held-settled : (a b : ℕ) (t : Stage) → t ≢ created → held a t ≡ held b t
held-settled a b absent ne = refl
held-settled a b created ne = absurd (ne refl)
held-settled a b (serving fd) ne = refl

pub held-accepted :
    (s : Process) (i fd j : ℕ)
    → ((k : ℕ) → s.stages k ≢ created)
    → update (descriptors s).clients i (some fd) j ≡ held fd (update s.stages i created j)
held-accepted s i fd j settled = elim (Bool-cases (j == i)) [
  | inl eq ↦ rw eq refl
  | inr ne ↦ rw ne (held-settled s.client_fd fd (s.stages j) (settled j))
]

pub held-began :
    (s : Process) (i j : ℕ)
    → s.stages i ≡ created
    → (descriptors s).clients j ≡ held s.client_fd (update s.stages i (serving s.client_fd) j)
held-began s i j at = elim (Bool-cases (j == i)) [
  | inl eq ↦ let same : j ≡ i = ground arith in rw (eq, same, at) refl
  | inr ne ↦ rw ne refl
]

-- In time, each thread has its own client.
pub handed :
    {base : Table} {σ : Calls} {s : Process} (order : Interleaved base σ s)
    → InTime order
    → Handed base σ (descriptors s)
unfolding InTime
handed begun t = start_handed
handed {base} (accepted {σ} {s} i fd r new free) (t, settled) =
    subst
      (λ f. Handed base σ (record { table = update s.table fd (some (client_of i)); clients = f }))
      (fun_ext (λ j. held-accepted s i fd j settled))
      (accept_handed i fd (handed r t) (rw new refl) free)
handed {base} (began {σ} {s} i r at) t =
    subst (λ f. Handed base σ (record { table = s.table; clients = f }))
      (fun_ext (λ j. held-began s i j at)) (handed r t)
handed (called i fd e r at free) t = call_handed i fd e (handed r t) (rw at refl) free

-- A thread that has not read its argument has made no call.
pub calls_of-unread :
    {base : Table} {σ : Calls} {s : Process} (i : ℕ)
    → Interleaved base σ s
    → (s.stages i ≡ absent) ⊎ (s.stages i ≡ created)
    → calls_of i σ ≡ []
unfolding calls_of
calls_of-unread i begun h = refl
calls_of-unread i (accepted {σ} {s} j fd r new free) h = elim (Bool-cases (i == j)) [
  | inl eq ↦ let same : i ≡ j = ground arith in calls_of-unread i r (inl (ap s.stages same ∙ new))
  | inr ne ↦ calls_of-unread i r (ground arith)
]
calls_of-unread i (began {σ} {s} j r at) h = elim (Bool-cases (i == j)) [
  | inl eq ↦ ground arith
  | inr ne ↦ calls_of-unread i r (ground arith)
]
calls_of-unread i (called {σ} {s} j fd e r at free) h = elim (Bool-cases (i == j)) [
  | inl eq ↦ ground arith
  | inr ne ↦ let known = calls_of-unread i r h in ground arith
]
