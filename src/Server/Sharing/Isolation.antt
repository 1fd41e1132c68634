-- ===== src/Server/Sharing/Isolation.antt =====
-- What the invariant of the process says of a call, and of the end.
use proxy.Base.{ℕ, ◌≡◌, ◌⊎◌, inl, inr, Option, none, some, arith, refl, ap}
use proxy.Sys.{Event, received, sent, connecting, spawned, shut_down, closed}
use proxy.Server.Protocol.{Phase, advance, over}
use proxy.Server.Sharing.{
  Connection, client_of, peer_of, other, Table, Thread, Shared, uses, Reach, started,
}
use proxy.Server.Sharing.Phases.{
  live, peer, Own, advance-closed, advance-sent, advance-received, advance-shut_down,
}
use proxy.Server.Sharing.Invariant.{Inv, IsPlain, Reach-Inv}

-- A call is about a descriptor that the thread holds.
advance-Own :
    (client : ℕ) (p : Phase) (e : Event) {q : Phase} {g : ℕ}
    → advance client p e ≡ some q
    → uses e ≡ some g
    → Own client p g
advance-Own client p (received g bs) h u = ground (arith, advance-received client g bs p h)
advance-Own client p (sent g bs) h u = ground (arith, advance-sent client g bs p h)
advance-Own client p (shut_down g) h u = ground (arith, advance-shut_down client g p h)
advance-Own client p (closed g) h u = ground (arith, advance-closed client g p h)
advance-Own client p (spawned c d) h u = cc
advance-Own client p (connecting host port) h u = cc

module _ (base : Table) (s : Shared) (plain : IsPlain base) (r : Reach (started base) s) where
  -- A call is about a descriptor that stands for the client or the destination of its own thread.
  pub call-own :
      (i : ℕ) (t : Thread) (e : Event) (p : Phase) (g : ℕ)
      → s.threads i ≡ some t
      → advance t.client_fd t.phase e ≡ some p
      → uses e ≡ some g
      → (s.table g ≡ some (client_of i)) ⊎ (s.table g ≡ some (peer_of i))
  call-own i t e p g at h u =
      let I = Reach-Inv base plain r in
      elim (advance-Own t.client_fd t.phase e h u) [
        | inl (same, l) ↦ inl (ground (arith, I.client_open i t at l))
        | inr pp ↦ inr (I.peer_open i t g at pp)
      ]

  -- When all threads are through, the table is as it was.
  pub over-table :
      ((i : ℕ) (t : Thread) → s.threads i ≡ some t → t.phase ≡ over) → (x : ℕ) → s.table x ≡ base x
  over-table all x = go (s.table x) refl
    where
      I : Inv base s
      I = Reach-Inv base plain r

      go : (c : Option Connection) → s.table x ≡ c → s.table x ≡ base x
      go none e = elim (plain x) [ inl b ↦ cc | inr (n, b) ↦ cc ((I.before x n).1 b) ]
      go (some (client_of i)) e =
          let (t, at, l, same) = I.client_held x i e in cc (ap live (all i t at), l)
      go (some (peer_of i)) e = let (t, at, pp) = I.peer_held x i e in cc (ap peer (all i t at), pp)
      go (some (other n)) e = cc (e, (I.before x n).0 e)
