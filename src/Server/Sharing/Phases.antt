-- ===== src/Server/Sharing/Phases.antt =====
-- Which descriptors a thread holds in each phase, and what a call does to them.
use proxy.Base.{ℕ, ◌≡◌, ◌⊎◌, Bool, true, false, Option, none, some, List, arith}
use proxy.Sys.{received, sent, connecting, spawned, shut_down, closed}
use proxy.Server.Protocol.{
  Phase, idle, asked, refusing, refused, reaching, joined, ending, closed_client, last, over,
  advance,
}

-- The client's descriptor is open.
abbrev pub live : Phase → Bool
live idle = true
live asked = true
live refusing = true
live refused = true
live reaching = true
live (joined d) = true
live (ending d) = true
live (closed_client d) = false
live (last d) = false
live over = false

-- The destination's descriptor, while it is open.
abbrev pub peer : Phase → Option ℕ
peer idle = none
peer asked = none
peer refusing = none
peer refused = none
peer reaching = none
peer (joined d) = some d
peer (ending d) = some d
peer (closed_client d) = some d
peer (last d) = some d
peer over = none

-- The descriptor is one that the thread holds.
abbrev pub Own : ℕ → Phase → ℕ → Type 0
Own client p g = ((g ≡ client) × (live p ≡ true)) ⊎ (peer p ≡ some g)

-- A call that neither opens nor closes.
abbrev pub Kept : Phase → Phase → Type 0
Kept p q = (live q ≡ live p) × (peer q ≡ peer p)

module _ (client : ℕ) where
  pub advance-sent :
      (g : ℕ) (bs : List ℕ) (p : Phase) {q : Phase}
      → advance client p (sent g bs) ≡ some q
      → Own client p g × Kept p q
  advance-sent g bs p h = grind arith

  pub advance-received :
      (g : ℕ) (bs : List ℕ) (p : Phase) {q : Phase}
      → advance client p (received g bs) ≡ some q
      → Own client p g × Kept p q
  advance-received g bs p h = grind arith

  pub advance-shut_down :
      (g : ℕ) (p : Phase) {q : Phase}
      → advance client p (shut_down g) ≡ some q
      → Own client p g × Kept p q
  advance-shut_down g p h = grind arith

  pub advance-connecting :
      (host port : List ℕ) (p : Phase) {q : Phase}
      → advance client p (connecting host port) ≡ some q
      → Kept p q
  advance-connecting host port p h = grind arith

  -- The destination's descriptor is opened once, while the client's is open.
  pub advance-spawned :
      (c d : ℕ) (p : Phase) {q : Phase}
      → advance client p (spawned c d) ≡ some q
      → (live p ≡ true) × (live q ≡ true) × (peer p ≡ none) × (peer q ≡ some d)
  advance-spawned c d p h = grind arith

  -- A call closes the client's descriptor, and later the destination's, each while it is open.
  pub advance-closed :
      (g : ℕ) (p : Phase) {q : Phase}
      → advance client p (closed g) ≡ some q
      → ((g ≡ client) × (live p ≡ true) × (live q ≡ false) × (peer q ≡ peer p))
        ⊎ ((peer p ≡ some g) × (live p ≡ false) × (live q ≡ false) × (peer q ≡ none))
  advance-closed g p h = grind arith
