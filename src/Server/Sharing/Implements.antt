-- ===== src/Server/Sharing/Implements.antt =====
-- Handed runs of `HandleConnection` are runs of the process.
use proxy.Base.{
  ℕ, ◌≡◌, refl, ap, sym, subst, ◌∙◌, ◌≢◌, ◌==◌, none, some, List, [], ◌∷◌, ◌++◌, update, arith,
  Bool-cases, inl, inr, Option-cases,
}
use mathlib.Core.Path.{fun_ext}
use proxy.Sys.{Event}
use proxy.Server.Protocol.{Phase, idle, phase, advance, then_advance}
use proxy.Server.Sharing.{client_of, Table, affect, Reach, here, next, accept, call, started}
use proxy.Server.Sharing.Handing.{
  Descriptors, Handed, start_handed, accept_handed, call_handed, thread, view,
}
use proxy.Server.Sharing.Interleaving.{Calls, calls_of}

-- The calls so far are allowed.
abbrev pub Allowed : ℕ → List Event → Type 0
Allowed fd es = (p : Phase) × (phase fd es ≡ some p)

pub Allowed-tail :
    (fd : ℕ) (e : Event) (es : List Event)
    → Allowed fd (e ∷ es)
    → (p : Phase) × (q : Phase) × (phase fd es ≡ some p)
      × (advance fd p e ≡ some q)
      × (phase fd (e ∷ es) ≡ some q)
unfolding phase
Allowed-tail fd e es (q, h) = elim (Option-cases (phase fd es)) [
  | inl stuck ↦ ground (arith, stuck)
  | inr (p, at) ↦ (p, q, at, sym (ap (λ o. then_advance fd o e) at) ∙ h, h)
]

pub Begins-Allowed :
    (fd : ℕ) (later early : List Event) → Allowed fd (later ++ early) → Allowed fd early
Begins-Allowed fd [] early h = h
Begins-Allowed fd (e ∷ later) early h =
    let (p, q, at, r, t) = Allowed-tail fd e (later ++ early) h in
    Begins-Allowed fd later early (p, at)

calls_of_other : (i j : ℕ) (e : Event) (σ : Calls) → j ≢ i → calls_of j ((i, e) ∷ σ) ≡ calls_of j σ
unfolding calls_of
calls_of_other i j e σ ne = ground arith

calls_of_self : (i : ℕ) (e : Event) (σ : Calls) → calls_of i ((i, e) ∷ σ) ≡ e ∷ calls_of i σ
unfolding calls_of
calls_of_self i e σ = ground arith

-- A thread that has not been made has made no call.
pub calls_of-none :
    (base : Table) {σ : Calls} {l : Descriptors} (i : ℕ)
    → Handed base σ l
    → l.clients i ≡ none
    → calls_of i σ ≡ []
unfolding calls_of
calls_of-none base i start_handed h = refl
calls_of-none base i (accept_handed {σ} {l} j fd r new free) h = elim (Bool-cases (i == j)) [
  | inl eq ↦ ground arith
  | inr ne ↦ calls_of-none base i r (ground arith)
]
calls_of-none base i (call_handed {σ} {l} j fd e r at free) h = elim (Bool-cases (i == j)) [
  | inl eq ↦ ground arith
  | inr ne ↦ let known = calls_of-none base i r h in ground arith
]

accepted-threads :
    (base : Table) {σ : Calls} {l : Descriptors} (i fd : ℕ)
    → Handed base σ l
    → l.clients i ≡ none
    → (j : ℕ)
    → update (view σ l).threads i (some (record { client_fd = fd; phase = idle })) j
      ≡ thread (update l.clients i (some fd) j) (calls_of j σ)
unfolding phase
accepted-threads base {σ} {l} i fd r new j = elim (Bool-cases (j == i)) [
  | inl eq ↦
      let first = calls_of-none base i r new in
      let same : j ≡ i = ground arith in rw (eq, same, first) refl
  | inr ne ↦ rw ne refl
]

called-threads :
    (σ : Calls) (l : Descriptors) (i fd : ℕ) (e : Event) (q : Phase)
    → l.clients i ≡ some fd
    → phase fd (e ∷ calls_of i σ) ≡ some q
    → (j : ℕ)
    → update (view σ l).threads i (some (record { client_fd = fd; phase = q })) j
      ≡ thread (l.clients j) (calls_of j ((i, e) ∷ σ))
called-threads σ l i fd e q at to j = elim (Bool-cases (j == i)) [
  | inl eq ↦ let same : j ≡ i = ground arith in rw (eq, same, calls_of_self i e σ, at, to) refl
  | inr ne ↦ let differ : j ≢ i = ground arith in rw (ne, calls_of_other i j e σ differ) refl
]

-- The calls of each thread are allowed.
abbrev pub AllAllowed : Calls → Descriptors → Type 0
AllAllowed σ l = (i fd : ℕ) → l.clients i ≡ some fd → Allowed fd (calls_of i σ)

pub accepted-before :
    (σ : Calls) (l : Descriptors) (i fd : ℕ)
    → l.clients i ≡ none
    → AllAllowed σ (record l { clients = update l.clients i (some fd) })
    → AllAllowed σ l
accepted-before σ l i fd new all j g at = elim (Bool-cases (j == i)) [
  | inl eq ↦ absurd (ground arith)
  | inr ne ↦ all j g (ground arith)
]

pub called-last :
    (σ : Calls) (l : Descriptors) (i fd : ℕ) (e : Event) (t : Table)
    → l.clients i ≡ some fd
    → AllAllowed ((i, e) ∷ σ) (record l { table = t })
    → (p : Phase) × (q : Phase) × (phase fd (calls_of i σ) ≡ some p)
      × (advance fd p e ≡ some q)
      × (phase fd (e ∷ calls_of i σ) ≡ some q)
called-last σ l i fd e t at all =
    Allowed-tail fd e (calls_of i σ) (subst (Allowed fd) (calls_of_self i e σ) (all i fd at))

pub called-before :
    (σ : Calls) (l : Descriptors) (i fd : ℕ) (e : Event) (t : Table)
    → l.clients i ≡ some fd
    → AllAllowed ((i, e) ∷ σ) (record l { table = t })
    → AllAllowed σ l
called-before σ l i fd e t at all j g at' = elim (Bool-cases (j == i)) [
  | inl eq ↦ let (p, q, h, step, to) = called-last σ l i fd e t at all in (p, ground arith)
  | inr ne ↦
      let differ : j ≢ i = ground arith in
      subst (Allowed g) (calls_of_other i j e σ differ) (all j g at')
]

pub Handed-Reach :
    (base : Table) {σ : Calls} {l : Descriptors}
    → Handed base σ l
    → AllAllowed σ l
    → Reach (started base) (view σ l)
Handed-Reach base start_handed all = here
Handed-Reach base (accept_handed {σ} {l} i fd r new free) all =
    let before = Handed-Reach base r (accepted-before σ l i fd new all) in
    subst
      (λ f.
        Reach (started base)
          (record { table = update l.table fd (some (client_of i)); threads = f }))
      (fun_ext (accepted-threads base i fd r new)) (next before (accept i fd (rw new refl) free))
Handed-Reach base (call_handed {σ} {l} i fd e r at free) all =
    let before = Handed-Reach base r (called-before σ l i fd e (affect i e l.table) at all) in
    let (p, q, h, step, to) = called-last σ l i fd e (affect i e l.table) at all in
    subst (λ f. Reach (started base) (record { table = affect i e l.table; threads = f }))
      (fun_ext (called-threads σ l i fd e q at to))
      (next before (call i (record { client_fd = fd; phase = p }) e q (rw (at, h) refl) step free))
