-- ===== src/Server/Sharing/Readers.antt =====
-- The threads of server.c that run `HostToCli`, among those that run `HandleConnection`.
use proxy.Base.{
  ℕ, ◌≡◌, refl, sym, ap, subst, ◌∙◌, ◌⊎◌, inl, inr, false, Option, none, some, List, [], ◌∷◌, arith,
  Bool-cases, ◌==◌,
}
use mathlib.Core.List.{Memᴰ}
use mathlib.Core.List.Memᴰ
use proxy.Sys.{Event, connecting, received, sent, spawned, shut_down, closed, World}
use proxy.SimpleSet.{SimpleSet}
use proxy.Utils.{Net}
use proxy.Server.{host_to_cli}
use proxy.Server.Relay.{relay-Preserves}
use proxy.Server.Protocol.{Phase, phase, advance, idle}
use proxy.Server.Sharing.{Connection, Table, client_of, peer_of, uses}
use proxy.Server.Sharing.Phases.{live, peer}
use proxy.Server.Sharing.Implements.{Allowed-tail}
use proxy.Server.Sharing.Contacts.{calls_of-Memᴰ}
use proxy.Server.Sharing.Invariant.{IsPlain, Inv, Reach-Inv}
use proxy.Server.Sharing.Served.{AreRuns, runs-AllAllowed, handle_connection-Reach}
use proxy.Server.Sharing.Handing.{thread, view, descriptors, held, calls_of-unread}
use proxy.Server.Sharing.Interleaving.{
  Calls, calls_of, Stage, absent, created, serving, Process, Interleaved, InTime,
}

-- The calls of `HostToCli`: it reads from the destination and writes to the client.
abbrev Carries : ℕ → ℕ → List Event → Type 0
Carries client_fd dest_fd es =
    (e : Event)
    → Memᴰ e es
    → ((bs : List ℕ) × (e ≡ received dest_fd bs)) ⊎ ((bs : List ℕ) × (e ≡ sent client_fd bs))

host_to_cli-Carries :
    (client_fd dest_fd : ℕ) (w : World)
    → w.trace ≡ []
    → Carries client_fd dest_fd (host_to_cli (some (client_fd, dest_fd)) w).1.trace
unfolding host_to_cli
host_to_cli-Carries client_fd dest_fd w fresh =
    relay-Preserves dest_fd client_fd (Carries client_fd dest_fd)
      (λ bs es h e m. elim (Memᴰ.cases_cons m) [
        | inl now ↦ inl (bs, now)
        | inr before ↦ h e before
      ])
      (λ bs es h e m. elim (Memᴰ.cases_cons m) [
        | inl now ↦ inr (bs, now)
        | inr before ↦ h e before
      ])
      w.reads w (λ e m. absurd (Memᴰ.not-nil (subst (Memᴰ e) fresh m)))

module _ (fd : ℕ) where
  -- A call after which the client's descriptor is not open any more has closed it.
  lost-client :
      (p : Phase) (e : Event) {q : Phase}
      → advance fd p e ≡ some q
      → live q ≡ false
      → (live p ≡ false) ⊎ (closed fd ≡ e)
  lost-client p e h l = grind arith

  lost-peer :
      (d : ℕ) (p : Phase) (e : Event) {q : Phase}
      → advance fd p e ≡ some q
      → peer p ≡ some d
      → (peer q ≡ some d) ⊎ (closed d ≡ e)
  lost-peer d p e h l = grind arith

  won-peer :
      (c d : ℕ) (p : Phase) {q : Phase}
      → advance fd p (spawned c d) ≡ some q
      → (c ≡ fd) × (peer q ≡ some d)
  won-peer c d p h = grind arith

  -- What a phase says of the calls so far.
  dead-closed :
      (es : List Event) {p : Phase} → phase fd es ≡ some p → live p ≡ false → Memᴰ (closed fd) es
  unfolding phase
  dead-closed [] {p} h l = let start : idle ≡ p = ground arith in cc (ap live start, l)
  dead-closed (e ∷ es) {p} h l =
      let (p₀, q, h₀, step, to) = Allowed-tail fd e es (p, h) in
      let same : q ≡ p = ground (arith, sym to ∙ h) in
      elim (lost-client p₀ e step (ap live same ∙ l)) [
        | inl before ↦ Memᴰ.tail (dead-closed es h₀ before)
        | inr now ↦ Memᴰ.head now
      ]

  joined-peer :
      (es : List Event) (c d : ℕ) {p : Phase}
      → phase fd es ≡ some p
      → Memᴰ (spawned c d) es
      → (c ≡ fd) × ((peer p ≡ some d) ⊎ Memᴰ (closed d) es)
  joined-peer [] c d h m = absurd (Memᴰ.not-nil m)
  joined-peer (e ∷ es) c d {p} h m =
      let (p₀, q, h₀, step, to) = Allowed-tail fd e es (p, h) in
      let same : q ≡ p = ground (arith, sym to ∙ h) in
      elim (Memᴰ.cases_cons m) [
        | inl now ↦
            let (own, new) = won-peer c d p₀ (ap (advance fd p₀) now ∙ step) in
            (own, inl (ap peer (sym same) ∙ new))
        | inr before ↦
            let (own, held) = joined-peer es c d h₀ before in
            (
              own,
              elim held [
                | inl open_yet ↦ elim (lost-peer d p₀ e step open_yet) [
                  | inl kept ↦ inl (ap peer (sym same) ∙ kept)
                  | inr lost ↦ inr (Memᴰ.head lost)
                ]
                | inr gone ↦ inr (Memᴰ.tail gone)
              ],
            )
      ]

calls_of-back : (i : ℕ) (e : Event) (σ : Calls) → Memᴰ e (calls_of i σ) → Memᴰ (i, e) σ
unfolding calls_of
calls_of-back i e [] m = absurd (Memᴰ.not-nil m)
calls_of-back i e ((j, d) ∷ σ) m = elim (Bool-cases (i == j)) [
  | inl mine ↦
      let same : i ≡ j = ground arith in
      let m₁ : Memᴰ e (d ∷ calls_of i σ) = subst (Memᴰ e) (rw mine refl) m in
      elim (Memᴰ.cases_cons m₁) [
        | inl now ↦ Memᴰ.head (cc (same, now))
        | inr before ↦ Memᴰ.tail (calls_of-back i e σ before)
      ]
  | inr other ↦ Memᴰ.tail (calls_of-back i e σ (subst (Memᴰ e) (rw other refl) m))
]

-- What a call of `HostToCli` means: its client when it writes, its destination when it reads.
abbrev pub meant : ℕ → Event → Option Connection
meant i (received g bs) = some (peer_of i)
meant i (sent g bs) = some (client_of i)
meant i (connecting h p) = none
meant i (spawned c d) = none
meant i (shut_down g) = none
meant i (closed g) = none

module _ (S : SimpleSet) (blocked_set : S.State) (nets : ℕ → Net) (worlds : ℕ → World)
    (fresh : (i : ℕ) → (worlds i).trace ≡ []) (base : Table) {σ : Calls} {s : Process}
    (order : Interleaved base σ s) (in_time : InTime order)
    (runs : AreRuns S blocked_set nets worlds σ s) (plain : IsPlain base) (i : ℕ) where
  I : Inv base (view σ (descriptors s))
  I =
      Reach-Inv base plain
        (handle_connection-Reach S blocked_set nets worlds fresh base order in_time runs)

  module _ (fd : ℕ) {p : Phase} (given : s.stages i ≡ serving fd)
      (h : phase fd (calls_of i σ) ≡ some p) where
    at :
        thread ((descriptors s).clients i) (calls_of i σ)
        ≡ some (record { client_fd = fd; phase = p })
    at = rw (given, h) refl

    open-client : ¬ Memᴰ (i, closed fd) σ → s.table fd ≡ some (client_of i)
    open-client open_yet = elim (Bool-cases (live p)) [
      | inl l ↦ I.client_open i (record { client_fd = fd; phase = p }) at l
      | inr l ↦
          absurd (open_yet (calls_of-back i (closed fd) σ (dead-closed fd (calls_of i σ) h l)))
    ]

    open-peer :
        (c d : ℕ)
        → Memᴰ (spawned c d) (calls_of i σ)
        → ¬ Memᴰ (i, closed d) σ
        → (c ≡ fd) × (s.table d ≡ some (peer_of i))
    open-peer c d made open_yet =
        let (own, held) = joined-peer fd (calls_of i σ) c d h made in
        (
          own,
          elim held [
            | inl is ↦ I.peer_open i (record { client_fd = fd; phase = p }) d at is
            | inr gone ↦ absurd (open_yet (calls_of-back i (closed d) σ gone))
          ],
        )

  has-client : (e : Event) → Memᴰ e (calls_of i σ) → (fd : ℕ) × (s.stages i ≡ serving fd)
  has-client e m = go (s.stages i) refl
    where
      unread : {A : Type 0} → calls_of i σ ≡ [] → A
      unread none_made = absurd (Memᴰ.not-nil (subst (Memᴰ e) none_made m))

      go : (t : Stage) → s.stages i ≡ t → (fd : ℕ) × (s.stages i ≡ serving fd)
      go absent h = unread (calls_of-unread i order (inl h))
      go created h = unread (calls_of-unread i order (inr h))
      go (serving fd) h = (fd, h)

  -- If the threads run `HandleConnection` from empty traces, with their calls in any order, each
  -- reads its argument before the next `accept` returns, the kernel gives only free descriptors,
  -- what was open before are neither clients nor destinations, and one of the threads has created
  -- one that runs `HostToCli` and that finds the two descriptors in the array of its creator, then
  -- as long as the creator has not closed the descriptor of a call of this second thread, that
  -- descriptor stands for what the call means: the creator's destination for a `read`, its client
  -- for a `write`.
  pub host_to_cli-own :
      (client_fd dest_fd : ℕ) (fds : Option (ℕ × ℕ)) (w : World)
      → Memᴰ (i, spawned client_fd dest_fd) σ
      → fds ≡ some (client_fd, dest_fd)
      → w.trace ≡ []
      → (e : Event) (g : ℕ) → Memᴰ e (host_to_cli fds w).1.trace
      → uses e ≡ some g
      → ¬ Memᴰ (i, closed g) σ
      → s.table g ≡ meant i e
  host_to_cli-own client_fd dest_fd fds w made found new e g m u open_yet =
      let mine = calls_of-Memᴰ i (spawned client_fd dest_fd) σ made in
      let (fd, given) = has-client (spawned client_fd dest_fd) mine in
      let (p, h) =
        runs-AllAllowed S blocked_set nets worlds fresh base order runs i fd (rw given refl) in
      let m₁ = subst (λ a. Memᴰ e (host_to_cli a w).1.trace) found m in
      elim (host_to_cli-Carries client_fd dest_fd w new e m₁) [
        | inl (bs, took) ↦
            let same : dest_fd ≡ g = ground (arith, ap uses took) in
            let still = subst (λ d. ¬ Memᴰ (i, closed d) σ) (sym same) open_yet in
            ap s.table (sym same)
            ∙ (open-peer fd given h client_fd dest_fd mine still).1
            ∙ ap (meant i) (sym took)
        | inr (bs, gave) ↦
            let same : client_fd ≡ g = ground (arith, ap uses gave) in
            let own = (joined-peer fd (calls_of i σ) client_fd dest_fd h mine).0 in
            let still = subst (λ d. ¬ Memᴰ (i, closed d) σ) (sym same ∙ own) open_yet in
            ap s.table (sym same ∙ own) ∙ open-client fd given h still ∙ ap (meant i) (sym gave)
      ]
