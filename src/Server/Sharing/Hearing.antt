-- ===== src/Server/Sharing/Hearing.antt =====
-- What the clients and the destinations of server.c are given.
use proxy.Base.{
  update, ℕ, ◌==◌, ◌≡◌, ◌≢◌, refl, sym, ap, subst, ◌∙◌, inl, inr, some, [], ◌∷◌, ◌++◌, arith,
  Bool-cases, append-nil,
}
use proxy.Sys.{World, Event, received, sent, connecting, spawned, shut_down, closed, delivered}
use proxy.SimpleSet.{SimpleSet}
use proxy.Utils.{Net}
use proxy.Server.Sharing.Served.{AreRuns, runs-AllAllowed}
use proxy.Server.Protocol.{Phase, phase, advance}
use proxy.Server.Sharing.{client_of, peer_of, Table, affect}
use proxy.Server.Sharing.Phases.{advance-sent}
use proxy.Server.Sharing.Invariant.{IsPlain, Inv, Reach-Inv}
use proxy.Server.Sharing.Bytes.{gains, heard, beyond, Honest, advance-live, gains-other, gains-own}
use proxy.Server.Sharing.Handing.{
  Descriptors, Handed, thread, view, held, descriptors, held-accepted, held-began, handed,
  calls_of-unread,
}
use proxy.Server.Sharing.Interleaving.{
  Calls, calls_of, absent, created, serving, Process, Interleaved, begun, accepted, began, called,
  InTime,
}
use proxy.Server.Sharing.Implements.{
  AllAllowed, Handed-Reach, accepted-before, called-before, called-last,
}

module _ (base : Table) (plain : IsPlain base) where
  -- The next call of a thread is honest.
  next-Honest :
      (σ : Calls) (l : Descriptors) (i fd : ℕ) (e : Event) (p q : Phase)
      → Inv base (view σ l)
      → l.clients i ≡ some fd
      → phase fd (calls_of i σ) ≡ some p
      → advance fd p e ≡ some q
      → Honest l.table i fd e
  next-Honest σ l i fd (sent g bs) p q I at h step =
      let there : thread (l.clients i) (calls_of i σ)
          ≡ some (record { client_fd = fd; phase = p }) =
        rw (at, h) refl in
      let mine =
        I.client_open i (record { client_fd = fd; phase = p }) there
          (advance-live fd g bs p step) in
      elim (advance-sent fd g bs p step).0 [
        | inl (same, lives) ↦ inl (same, ap l.table same ∙ mine)
        | inr held ↦
            let theirs = I.peer_open i (record { client_fd = fd; phase = p }) g there held in
            inr ((λ e. cc (mine, theirs)), theirs)
      ]
  next-Honest σ l i fd (received g bs) p q I at h step = tt
  next-Honest σ l i fd (connecting a b) p q I at h step = tt
  next-Honest σ l i fd (spawned c d) p q I at h step = tt
  next-Honest σ l i fd (shut_down g) p q I at h step = tt
  next-Honest σ l i fd (closed g) p q I at h step = tt

  last-Honest :
      (σ : Calls) (l : Descriptors) (i fd : ℕ) (e : Event) (t : Table)
      → Handed base σ l
      → l.clients i ≡ some fd
      → AllAllowed ((i, e) ∷ σ) (record l { table = t })
      → Honest l.table i fd e
  last-Honest σ l i fd e t r at all =
      let (p, q, h, step, to) = called-last σ l i fd e t at all in
      let before = called-before σ l i fd e t at all in
      next-Honest σ l i fd e p q (Reach-Inv base plain (Handed-Reach base r before)) at h step

  -- What a step of the loop of `main` leaves allowed.
  accepted-AllAllowed :
      (σ : Calls) (s : Process) (j fd : ℕ) (t : Table)
      → s.stages j ≡ absent
      → ((k : ℕ) → s.stages k ≢ created)
      → AllAllowed σ
          (descriptors (record { table = t; client_fd = fd; stages = update s.stages j created }))
      → AllAllowed σ (descriptors s)
  accepted-AllAllowed σ s j fd t new settled all =
      accepted-before σ (descriptors s) j fd (rw new refl)
        (λ i g at. all i g (sym (held-accepted s j fd i settled) ∙ at))

  began-AllAllowed :
      (σ : Calls) (s : Process) (j : ℕ)
      → s.stages j ≡ created
      → AllAllowed σ (descriptors (record s { stages = update s.stages j (serving s.client_fd) }))
      → AllAllowed σ (descriptors s)
  began-AllAllowed σ s j at all i g h = all i g (sym (held-began s j i at) ∙ h)

  heard-none :
      {σ : Calls} {s : Process} (order : Interleaved base σ s)
      → InTime order
      → AllAllowed σ (descriptors s)
      → (i : ℕ) → s.stages i ≡ absent
      → (heard (client_of i) order ≡ []) × (heard (peer_of i) order ≡ [])
  unfolding heard InTime
  heard-none begun t all i h = (refl, refl)
  heard-none (accepted {σ} {s} j fd r new free) (t, settled) all i h =
      let table = update s.table fd (some (client_of j)) in
      heard-none r t (accepted-AllAllowed σ s j fd table new settled all) i (ground arith)
  heard-none (began {σ} {s} j r at) t all i h =
      heard-none r t (began-AllAllowed σ s j at all) i (ground arith)
  heard-none (called {σ} {s} j fd e r at free) t all i h =
      let t₁ = affect j e s.table in
      let l = descriptors s in
      let given : l.clients j ≡ some fd = rw at refl in
      let differ : j ≢ i = λ same. cc (ap s.stages same, at, h) in
      let honest = last-Honest σ l j fd e t₁ (handed r t) given all in
      let (none_c, none_p) = gains-other s.table i j fd e honest differ in
      let (c, p) = heard-none r t (called-before σ l j fd e t₁ given all) i h in
      (rw (none_c, c) refl, rw (none_p, p) refl)

  heard-sent :
      {σ : Calls} {s : Process} (order : Interleaved base σ s)
      → InTime order
      → AllAllowed σ (descriptors s)
      → (i fd : ℕ) → (descriptors s).clients i ≡ some fd
      → (heard (client_of i) order ≡ delivered fd (calls_of i σ))
        × (heard (peer_of i) order ≡ beyond fd (calls_of i σ))
  unfolding heard calls_of delivered beyond InTime
  heard-sent begun t all i fd h = cc
  heard-sent (accepted {σ} {s} j fd' r new free) (t, settled) all i fd h =
      let table = update s.table fd' (some (client_of j)) in
      let before = accepted-AllAllowed σ s j fd' table new settled all in
      elim (Bool-cases (i == j)) [
        | inl now ↦
            let same : i ≡ j = ground arith in
            let unborn = ap s.stages same ∙ new in
            let quiet = calls_of-unread i r (inl unborn) in
            let (c, p) = heard-none r t before i unborn in
            (c ∙ ap (delivered fd) (sym quiet), p ∙ ap (beyond fd) (sym quiet))
        | inr old ↦
            let mine : update (descriptors s).clients j (some fd') i ≡ (descriptors s).clients i =
              rw old refl in
            heard-sent r t before i fd (sym mine ∙ held-accepted s j fd' i settled ∙ h)
      ]
  heard-sent (began {σ} {s} j r at) t all i fd h =
      heard-sent r t (began-AllAllowed σ s j at all) i fd (held-began s j i at ∙ h)
  heard-sent (called {σ} {s} j fd' e r at free) t all i fd h =
      let t₁ = affect j e s.table in
      let l = descriptors s in
      let given : l.clients j ≡ some fd' = rw at refl in
      let honest = last-Honest σ l j fd' e t₁ (handed r t) given all in
      let (c, p) = heard-sent r t (called-before σ l j fd' e t₁ given all) i fd h in
      elim (Bool-cases (i == j)) [
        | inl mine ↦
            let same : j ≡ i = ground arith in
            let same_fd : fd' ≡ fd = ground (arith, sym given ∙ ap l.clients same ∙ h) in
            let made : calls_of i ((j, e) ∷ σ) ≡ e ∷ calls_of i σ = rw mine refl in
            let (own_c, own_p) = gains-own s.table i fd e (calls_of i σ) (
              subst (λ x. Honest s.table i x e) same_fd
                (subst (λ x. Honest s.table x fd' e) same honest)) in
            (
              ap (λ bs. bs ++ gains s.table (client_of i) e) c
                  ∙ sym own_c
                  ∙ ap (delivered fd) (sym made),
              ap (λ bs. bs ++ gains s.table (peer_of i) e) p
                  ∙ sym own_p
                  ∙ ap (beyond fd) (sym made),
            )
        | inr theirs ↦
            let differ : j ≢ i = ground arith in
            let made : calls_of i ((j, e) ∷ σ) ≡ calls_of i σ = rw theirs refl in
            let (none_c, none_p) = gains-other s.table i j fd' e honest differ in
            (
              rw none_c (append-nil _) ∙ c ∙ ap (delivered fd) (sym made),
              rw none_p (append-nil _) ∙ p ∙ ap (beyond fd) (sym made),
            )
      ]

module _ (S : SimpleSet) (blocked_set : S.State) (nets : ℕ → Net) (worlds : ℕ → World) where
  -- If the threads run `HandleConnection` from empty traces, with their calls in any order, each
  -- thread reads its argument before the next `accept` returns, the kernel gives only free
  -- descriptors, and what was open before are neither clients nor destinations, then at each moment
  -- these threads have given a client what its own thread has written to its descriptor, and the
  -- destination what that thread has written elsewhere, in order and nothing else, as if no other
  -- client were served.
  pub handle_connection-heard :
      ((i : ℕ) → (worlds i).trace ≡ [])
      → (base : Table) → IsPlain base
      → {σ : Calls} {s : Process} (order : Interleaved base σ s) → InTime order
      → AreRuns S blocked_set nets worlds σ s
      → (i fd : ℕ) → s.stages i ≡ serving fd
      → (heard (client_of i) order ≡ delivered fd (calls_of i σ))
        × (heard (peer_of i) order ≡ beyond fd (calls_of i σ))
  handle_connection-heard fresh base plain {σ} {s} order in_time runs i fd at =
      heard-sent base plain order in_time
        (runs-AllAllowed S blocked_set nets worlds fresh base order runs) i fd (rw at refl)
