-- ===== src/Server/Sharing/Served.antt =====
-- The clients of server.c, served at the same time.
use proxy.Base.{
  ℕ, ◌≡◌, refl, ap, sym, ◌≢◌, subst, ◌∙◌, ◌⊎◌, Option, some, List, [], ◌∷◌, inr, arith,
}
use proxy.Sys.{Event, World, done}
use proxy.SimpleSet.{SimpleSet}
use proxy.Utils.{Net}
use proxy.Server.{handle_connection}
use proxy.Server.Protocol.{Phase, idle, phase, over}
use proxy.Server.Protocol.Refines.{handle_connection-Follows, phase_nil}
use proxy.Server.Sharing.{client_of, peer_of, Table, Thread, Reach, started, uses}
use proxy.Server.Sharing.Invariant.{IsPlain}
use proxy.Server.Sharing.Isolation.{call-own, over-table}
use proxy.Server.Sharing.Handing.{thread, placed, view, held, descriptors, handed, calls_of-unread}
use proxy.Server.Sharing.Interleaving.{
  Calls, calls_of, Begins, Stage, absent, created, serving, Process, Interleaved, InTime,
}
use proxy.Server.Sharing.Implements.{
  Allowed, AllAllowed, Allowed-tail, Begins-Allowed, Handed-Reach,
}

thread-phase :
    (o : Option ℕ) (fd : ℕ) (es : List Event) {p : Phase} {t : Thread}
    → o ≡ some fd
    → phase fd es ≡ some p
    → thread o es ≡ some t
    → t.phase ≡ p
thread-phase o fd es given h at =
    ground (arith, sym at ∙ ap (λ z. thread z es) given ∙ ap (placed fd) h)

module _ (S : SimpleSet) (blocked_set : S.State) (nets : ℕ → Net) (worlds : ℕ → World) where
  -- The trace that thread `i` leaves in the end, if it serves `fd`.
  abbrev pub trace_of : ℕ → ℕ → List Event
  trace_of i fd = (handle_connection S (nets i) blocked_set fd (worlds i)).1.trace

  -- The calls of each thread are the first ones of a run of the source's function.
  abbrev pub AreRuns : Calls → Process → Type 0
  AreRuns σ s = (i fd : ℕ) → s.stages i ≡ serving fd → Begins (calls_of i σ) (trace_of i fd)

  module _ (fresh : (i : ℕ) → (worlds i).trace ≡ []) where
    begun-Allowed :
        (i fd : ℕ) (early : List Event) → Begins early (trace_of i fd) → Allowed fd early
    begun-Allowed i fd early (later, whole) =
        let (p, h, _) = handle_connection-Follows S (nets i) blocked_set fd (worlds i) (fresh i) in
        Begins-Allowed fd later early (subst (Allowed fd) (sym whole) (p, h))

    -- A thread that has not read its argument has made no call, so all that is said of the calls of
    -- the others holds of it.
    pub runs-AllAllowed :
        (base : Table) {σ : Calls} {s : Process}
        → Interleaved base σ s
        → AreRuns σ s
        → AllAllowed σ (descriptors s)
    runs-AllAllowed base {σ} {s} order runs i fd = go (s.stages i) refl
      where
        go : (t : Stage) → s.stages i ≡ t → held s.client_fd t ≡ some fd → Allowed fd (calls_of i σ)
        go absent e h = cc
        go created e h =
            subst (Allowed fd) (sym (calls_of-unread i order (inr e))) (idle, phase_nil fd)
        go (serving g) e h =
            let same : g ≡ fd = ground (arith, h) in
            begun-Allowed i fd (calls_of i σ) (runs i fd (e ∙ ap serving same))

    module _ (base : Table) {σ : Calls} {s : Process} (order : Interleaved base σ s)
        (in_time : InTime order) (runs : AreRuns σ s) where
      -- The process is in a state that the steps of Server/Sharing reach, where each thread is in the
      -- phase that its calls so far have led to.
      pub handle_connection-Reach : Reach (started base) (view σ (descriptors s))
      handle_connection-Reach =
          Handed-Reach base (handed order in_time) (runs-AllAllowed base order runs)

      -- If the threads run `HandleConnection` from empty traces, with their calls in any order, each
      -- thread reads its argument before the next `accept` returns, the kernel gives only free
      -- descriptors, and what was open before are neither clients nor destinations, then the
      -- descriptor of the next `read`, `write`, `shutdown` or `close` of a thread stands for the
      -- client or the destination of that same thread, whatever the others have closed and been
      -- given since.
      pub handle_connection-own :
          (i fd : ℕ) (e : Event) (g : ℕ)
          → IsPlain base
          → s.stages i ≡ serving fd
          → Begins (e ∷ calls_of i σ) (trace_of i fd)
          → uses e ≡ some g
          → (s.table g ≡ some (client_of i)) ⊎ (s.table g ≡ some (peer_of i))
      handle_connection-own i fd e g plain at begins u =
          let (p, q, h, step, to) =
            Allowed-tail fd e (calls_of i σ) (begun-Allowed i fd (e ∷ calls_of i σ) begins) in
          call-own base (view σ (descriptors s)) plain handle_connection-Reach i
            (record { client_fd = fd; phase = p }) e q g (rw (at, h) refl) step u

    -- If the threads run `HandleConnection` from empty traces, with their calls in any order, each
    -- thread reads its argument before the next `accept` returns, the kernel gives only free
    -- descriptors, and what was open before are neither clients nor destinations, then once every
    -- thread has ended, each descriptor stands for what it stood for before the first client: none
    -- has been left open, and none of the process's own was closed.
    pub handle_connection-restores :
        (base : Table) {σ : Calls} {s : Process} (order : Interleaved base σ s)
        → InTime order
        → IsPlain base
        → ((i : ℕ) → s.stages i ≢ created)
        → ((i fd : ℕ)
            → s.stages i ≡ serving fd
            → ((handle_connection S (nets i) blocked_set fd (worlds i)).0 ≡ done tt)
              × (calls_of i σ ≡ trace_of i fd))
        → (x : ℕ) → s.table x ≡ base x
    handle_connection-restores base {σ} {s} order in_time plain read_all ended =
        over-table base (view σ (descriptors s)) plain
          (handle_connection-Reach base order in_time (λ i fd at. ([], (ended i fd at).1)))
          (λ i t. finished i t (s.stages i) refl)
      where
        finished :
            (i : ℕ) (t : Thread) (at : Stage)
            → s.stages i ≡ at
            → thread (held s.client_fd at) (calls_of i σ) ≡ some t
            → t.phase ≡ over
        finished i t absent e h = cc
        finished i t created e h = absurd (read_all i e)
        finished i t (serving fd) e h =
            let (finish, whole) = ended i fd e in
            let (p, last_phase, last) =
              handle_connection-Follows S (nets i) blocked_set fd (worlds i) (fresh i) in
            thread-phase (some fd) fd (calls_of i σ) refl (ap (phase fd) whole ∙ last_phase) h
            ∙ last finish
