-- ===== src/Server/Sharing/Invariant.antt =====
-- Each descriptor of the process stands for what the thread that holds it has opened.
use proxy.Base.{
  ℕ, ◌≡◌, refl, ◌⊎◌, ◌≢◌, ◌↔◌, inl, inr, true, false, Option, none, some, arith, ◌==◌, update,
  Bool-cases,
}
use proxy.Sys.{Event, received, sent, connecting, spawned, shut_down, closed}
use proxy.Server.Protocol.{Phase, advance, idle}
use proxy.Server.Sharing.{
  Connection, client_of, peer_of, other, Table, Thread, Shared, opens, affect, IsFree, accept, call,
  started, Reach, here, next,
}
use proxy.Server.Sharing.Phases.{
  live, peer, Kept, advance-spawned, advance-closed, advance-sent, advance-received,
  advance-shut_down, advance-connecting,
}

-- The two directions for a client and for a destination, and what was open before stays.
pub record Inv (base : Table) (s : Shared) : Type 0 where
  pub client_open :
      (i : ℕ) (t : Thread)
      → s.threads i ≡ some t
      → live t.phase ≡ true
      → s.table t.client_fd ≡ some (client_of i)
  pub peer_open :
      (i : ℕ) (t : Thread) (d : ℕ)
      → s.threads i ≡ some t
      → peer t.phase ≡ some d
      → s.table d ≡ some (peer_of i)
  pub client_held :
      (x i : ℕ)
      → s.table x ≡ some (client_of i)
      → (t : Thread) × (s.threads i ≡ some t) × (live t.phase ≡ true) × (t.client_fd ≡ x)
  pub peer_held :
      (x i : ℕ)
      → s.table x ≡ some (peer_of i)
      → (t : Thread) × (s.threads i ≡ some t) × (peer t.phase ≡ some x)
  pub before : (x n : ℕ) → (s.table x ≡ some (other n)) ↔ (base x ≡ some (other n))

-- The invariant where thread `i` has become `v` and descriptor `g` stands for `entry`.
abbrev Becomes : Table → Shared → ℕ → Thread → ℕ → Option Connection → Type 0
Becomes base s i v g entry =
    Inv base (record { table = update s.table g entry; threads = update s.threads i (some v) })

module _ (base : Table) (s : Shared) (I : Inv base s) (i : ℕ) (t : Thread) (q : Phase)
    (at : s.threads i ≡ some t) where
  -- A call that neither opens nor closes.
  keep-Inv :
      Kept t.phase q
      → Inv base (record s { threads = update s.threads i (some (record t { phase = q })) })
  keep-Inv (lives, peers) = record {
    client_open = λ j u e l. ground (arith, I.client_open j u, I.client_open i t at);
    peer_open = λ j u d e l. ground (arith, I.peer_open j u d, I.peer_open i t d at);
    client_held = λ x j h.
        let (u, e, l, same) = I.client_held x j h in
        elim (Bool-cases (j == i)) [
          | inl eq ↦ (record t { phase = q }, ground arith, ground arith, ground arith)
          | inr ne ↦ (u, ground arith, l, same)
        ];
    peer_held = λ x j h.
        let (u, e, l) = I.peer_held x j h in
        elim (Bool-cases (j == i)) [
          | inl eq ↦ (record t { phase = q }, ground arith, ground arith)
          | inr ne ↦ (u, ground arith, l)
        ];
    before = I.before;
  }

  -- The destination's descriptor is opened.
  open-Inv :
      (d : ℕ)
      → s.table d ≡ none
      → live t.phase ≡ true
      → live q ≡ true
      → peer t.phase ≡ none
      → peer q ≡ some d
      → Becomes base s i (record t { phase = q }) d (some (peer_of i))
  open-Inv d free lp lq pp pq = record {
    client_open = λ j u e l. ground (arith, I.client_open j u, I.client_open i t at);
    peer_open = λ j u x e l. ground (arith, I.peer_open j u x, I.peer_open i t x at);
    client_held = λ x j h.
        let old : s.table x ≡ some (client_of j) = ground arith in
        let (u, e, l, same) = I.client_held x j old in
        elim (Bool-cases (j == i)) [
          | inl eq ↦ (record t { phase = q }, ground arith, lq, ground arith)
          | inr ne ↦ (u, ground arith, l, same)
        ];
    peer_held = λ x j h. elim (Bool-cases (x == d)) [
      | inl new ↦ (record t { phase = q }, ground arith, ground arith)
      | inr old ↦
          let held : s.table x ≡ some (peer_of j) = ground arith in
          let (u, e, l) = I.peer_held x j held in (u, ground arith, l)
    ];
    before = λ x n. (λ h. (I.before x n).0 (ground arith), λ h. ground (arith, (I.before x n).1 h));
  }

  -- The client's descriptor is closed.
  close_client-Inv :
      live t.phase ≡ true
      → live q ≡ false
      → peer q ≡ peer t.phase
      → Becomes base s i (record t { phase = q }) t.client_fd none
  close_client-Inv lp lq pq =
      let own : s.table t.client_fd ≡ some (client_of i) = I.client_open i t at lp in
      record {
        client_open = λ j u e l. ground (arith, I.client_open j u);
        peer_open = λ j u x e l. ground (arith, I.peer_open j u x, I.peer_open i t x at);
        client_held = λ x j h.
            let old : s.table x ≡ some (client_of j) = ground arith in
            let (u, e, l, same) = I.client_held x j old in (u, ground arith, l, same);
        peer_held = λ x j h.
            let old : s.table x ≡ some (peer_of j) = ground arith in
            let (u, e, l) = I.peer_held x j old in
            elim (Bool-cases (j == i)) [
              | inl eq ↦ (record t { phase = q }, ground arith, ground arith)
              | inr ne ↦ (u, ground arith, l)
            ];
        before =
            λ x n. (λ h. (I.before x n).0 (ground arith), λ h. ground (arith, (I.before x n).1 h));
      }

  -- The destination's descriptor is closed.
  close_peer-Inv :
      (g : ℕ)
      → peer t.phase ≡ some g
      → live t.phase ≡ false
      → live q ≡ false
      → peer q ≡ none
      → Becomes base s i (record t { phase = q }) g none
  close_peer-Inv g pp lp lq pq =
      let own : s.table g ≡ some (peer_of i) = I.peer_open i t g at pp in
      record {
        client_open = λ j u e l. ground (arith, I.client_open j u);
        peer_open = λ j u x e l. ground (arith, I.peer_open j u x);
        client_held = λ x j h.
            let old : s.table x ≡ some (client_of j) = ground arith in
            let (u, e, l, same) = I.client_held x j old in (u, ground arith, l, same);
        peer_held = λ x j h.
            let old : s.table x ≡ some (peer_of j) = ground arith in
            let (u, e, l) = I.peer_held x j old in (u, ground arith, l);
        before =
            λ x n. (λ h. (I.before x n).0 (ground arith), λ h. ground (arith, (I.before x n).1 h));
      }

-- A new thread, for a client whose descriptor was free.
accept-Inv :
    (base : Table) (s : Shared) (i fd : ℕ)
    → Inv base s
    → s.threads i ≡ none
    → s.table fd ≡ none
    → Becomes base s i (record { client_fd = fd; phase = idle }) fd (some (client_of i))
accept-Inv base s i fd I new free = record {
  client_open = λ j u e l. ground (arith, I.client_open j u);
  peer_open = λ j u x e l. ground (arith, I.peer_open j u x);
  client_held = λ x j h. elim (Bool-cases (x == fd)) [
    | inl eq ↦ (record { client_fd = fd; phase = idle }, ground arith, refl, ground arith)
    | inr ne ↦
        let old : s.table x ≡ some (client_of j) = ground arith in
        let (u, e, l, same) = I.client_held x j old in (u, ground arith, l, same)
  ];
  peer_held = λ x j h.
      let old : s.table x ≡ some (peer_of j) = ground arith in
      let (u, e, l) = I.peer_held x j old in (u, ground arith, l);
  before = λ x n. (λ h. (I.before x n).0 (ground arith), λ h. ground (arith, (I.before x n).1 h));
}

-- What was open when the process came to its loop.
abbrev pub IsPlain : Table → Type 0
IsPlain base = (x : ℕ) → (base x ≡ none) ⊎ ((n : ℕ) × (base x ≡ some (other n)))

plain-client : (base : Table) (x i : ℕ) → IsPlain base → base x ≢ some (client_of i)
plain-client base x i plain h = ground (arith, plain x)

plain-peer : (base : Table) (x i : ℕ) → IsPlain base → base x ≢ some (peer_of i)
plain-peer base x i plain h = ground (arith, plain x)

started-Inv : (base : Table) → IsPlain base → Inv base (started base)
started-Inv base plain = record {
  client_open = λ i t e l. cc;
  peer_open = λ i t d e l. cc;
  client_held = λ x i h. absurd (plain-client base x i plain h);
  peer_held = λ x i h. absurd (plain-peer base x i plain h);
  before = λ x n. (λ h. h, λ h. h);
}

call-Inv :
    (base : Table) (s : Shared) (i : ℕ) (t : Thread) (e : Event) (p : Phase)
    → Inv base s
    → s.threads i ≡ some t
    → advance t.client_fd t.phase e ≡ some p
    → IsFree s.table (opens e)
    → Inv base (record {
      table = affect i e s.table;
      threads = update s.threads i (some (record t { phase = p }));
    })
call-Inv base s i t (received g bs) p I at h free =
    keep-Inv base s I i t p at (advance-received t.client_fd g bs t.phase h).1
call-Inv base s i t (sent g bs) p I at h free =
    keep-Inv base s I i t p at (advance-sent t.client_fd g bs t.phase h).1
call-Inv base s i t (shut_down g) p I at h free =
    keep-Inv base s I i t p at (advance-shut_down t.client_fd g t.phase h).1
call-Inv base s i t (connecting host port) p I at h free =
    keep-Inv base s I i t p at (advance-connecting t.client_fd host port t.phase h)
call-Inv base s i t (spawned c d) p I at h free =
    let (lp, lq, pp, pq) = advance-spawned t.client_fd c d t.phase h in
    open-Inv base s I i t p at d free lp lq pp pq
call-Inv base s i t (closed g) p I at h free = elim (advance-closed t.client_fd g t.phase h) [
  | inl (same, lp, lq, pq) ↦ rw same (close_client-Inv base s I i t p at lp lq pq)
  | inr (pp, lp, lq, pq) ↦ close_peer-Inv base s I i t p at g pp lp lq pq
]

pub Reach-Inv : (base : Table) {s : Shared} → IsPlain base → Reach (started base) s → Inv base s
Reach-Inv base plain here = started-Inv base plain
Reach-Inv base plain (next r (accept i fd new free)) =
    accept-Inv base _ i fd (Reach-Inv base plain r) new free
Reach-Inv base plain (next r (call i t e p at h free)) =
    call-Inv base _ i t e p (Reach-Inv base plain r) at h free
