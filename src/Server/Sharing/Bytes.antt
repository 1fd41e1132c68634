-- ===== src/Server/Sharing/Bytes.antt =====
-- The bytes that a call of a thread of server.c gives to a connection, by whatever descriptor stands
-- for it at the time.
use proxy.Base.{
  ℕ, ◌==◌, ◌≡◌, ◌≢◌, refl, sym, ◌⊎◌, inl, inr, Bool, true, false, Option, none, some, List, [], ◌∷◌,
  ◌++◌, arith, if◌then◌else◌, append-nil,
}
use proxy.Sys.{Event, received, sent, connecting, spawned, shut_down, closed, delivered}
use proxy.Server.Protocol.{Phase, advance}
use proxy.Server.Sharing.{Connection, client_of, peer_of, other, Table}
use proxy.Server.Sharing.Phases.{live}
use proxy.Server.Sharing.Interleaving.{Calls, Process, Interleaved, begun, accepted, began, called}

abbrev pub same_connection : Connection → Connection → Bool
same_connection (client_of i) (client_of j) = i == j
same_connection (peer_of i) (peer_of j) = i == j
same_connection (other m) (other n) = m == n
same_connection c d = false

abbrev pub stands_for : Option Connection → Connection → Bool
stands_for none c = false
stands_for (some d) c = same_connection d c

-- The bytes that a call gives to a connection.
abbrev pub gains : Table → Connection → Event → List ℕ
gains t c (sent g bs) = if stands_for (t g) c then bs else []
gains t c (received g bs) = []
gains t c (connecting h p) = []
gains t c (spawned d e) = []
gains t c (shut_down g) = []
gains t c (closed g) = []

-- The bytes that a connection has been given in all.
unfoldable pub heard :
    {base : Table} {σ : Calls} {s : Process} → Connection → Interleaved base σ s → List ℕ
heard c begun = []
heard c (accepted i fd r new free) = heard c r
heard c (began i r at) = heard c r
heard c (called {σ} {s} i fd e r at free) = heard c r ++ gains s.table c e

-- The bytes that a thread has sent elsewhere than to `fd`.
unfoldable pub beyond : ℕ → List Event → List ℕ
beyond fd [] = []
beyond fd (sent g bs ∷ es) = let rest = beyond fd es in if g == fd then rest else rest ++ bs
beyond fd (received g bs ∷ es) = beyond fd es
beyond fd (connecting h p ∷ es) = beyond fd es
beyond fd (spawned c d ∷ es) = beyond fd es
beyond fd (shut_down g ∷ es) = beyond fd es
beyond fd (closed g ∷ es) = beyond fd es

-- A call by thread `i` for the client at `fd`, with the table as it is then: what it gives is what
-- it seems to give.
abbrev pub Honest : Table → ℕ → ℕ → Event → Type 0
Honest t i fd (sent g bs) =
    ((g ≡ fd) × (t g ≡ some (client_of i))) ⊎ ((g ≢ fd) × (t g ≡ some (peer_of i)))
Honest t i fd (received g bs) = Unit {0}
Honest t i fd (connecting h p) = Unit {0}
Honest t i fd (spawned c d) = Unit {0}
Honest t i fd (shut_down g) = Unit {0}
Honest t i fd (closed g) = Unit {0}

pub advance-live :
    (client g : ℕ) (bs : List ℕ) (p : Phase) {q : Phase}
    → advance client p (sent g bs) ≡ some q
    → live p ≡ true
advance-live client g bs p h = grind arith

pub gains-other :
    (t : Table) (i j fd : ℕ) (e : Event)
    → Honest t j fd e
    → j ≢ i
    → (gains t (client_of i) e ≡ []) × (gains t (peer_of i) e ≡ [])
gains-other t i j fd (sent g bs) (inl (same, at)) ne = (ground arith, ground arith)
gains-other t i j fd (sent g bs) (inr (differ, at)) ne = (ground arith, ground arith)
gains-other t i j fd (received g bs) h ne = (refl, refl)
gains-other t i j fd (connecting a p) h ne = (refl, refl)
gains-other t i j fd (spawned c d) h ne = (refl, refl)
gains-other t i j fd (shut_down g) h ne = (refl, refl)
gains-other t i j fd (closed g) h ne = (refl, refl)

pub gains-own :
    (t : Table) (i fd : ℕ) (e : Event) (es : List Event)
    → Honest t i fd e
    → (delivered fd (e ∷ es) ≡ delivered fd es ++ gains t (client_of i) e)
      × (beyond fd (e ∷ es) ≡ beyond fd es ++ gains t (peer_of i) e)
unfolding delivered beyond
gains-own t i fd (sent g bs) es (inl (same, at)) =
    (ground (arith, append-nil (delivered fd es)), ground (arith, append-nil (beyond fd es)))
gains-own t i fd (sent g bs) es (inr (differ, at)) =
    (ground (arith, append-nil (delivered fd es)), ground (arith, append-nil (beyond fd es)))
gains-own t i fd (received g bs) es h = (sym (append-nil _), sym (append-nil _))
gains-own t i fd (connecting a p) es h = (sym (append-nil _), sym (append-nil _))
gains-own t i fd (spawned c d) es h = (sym (append-nil _), sym (append-nil _))
gains-own t i fd (shut_down g) es h = (sym (append-nil _), sym (append-nil _))
gains-own t i fd (closed g) es h = (sym (append-nil _), sym (append-nil _))
