-- ===== src/Sys.antt =====
-- The system calls of one thread. What the kernel answers is a script: the replies to the thread's
-- reads and writes in order. What the thread does to the outside is a trace, the newest event first.
-- A thread whose script is used up is blocked in that call: it waits there, or a signal has ended the
-- process, as SIGPIPE does in a `write` where the program does not ignore it; or the run is told only so
-- far. A loop that makes a call in each round
-- recurs on the script, so it needs no fuel.
pub mod Laws
pub mod Frames
pub mod Answers
pub mod Local
use proxy.Base.{ℕ, ◌==◌, List, [], ◌∷◌, ◌++◌, if◌then◌else◌, take, ltb, length, suc}
use proxy.Base.{Option, none, some}
use proxy.CString.{c_str}

-- The result of `read` or `write`: at least 0, or -1 with `errno` EINTR or another.
pub data Reply (A : Type 0) : Type 0 where
  ok : A → Reply A
  interrupted : Reply A
  failed : Reply A

pub data Event : Type 0 where
  -- `read(fd)` gave these bytes.
  received : ℕ → List ℕ → Event
  -- `write(fd)` took these bytes.
  sent : ℕ → List ℕ → Event
  -- `connect` to the address of a host and port.
  connecting : List ℕ → List ℕ → Event
  -- A detached thread that runs `HostToCli` on a client and a destination.
  spawned : ℕ → ℕ → Event
  shut_down : ℕ → Event
  closed : ℕ → Event

pub record World : Type 0 where
  pub reads : List (Reply (List ℕ))
  pub writes : List (Reply ℕ)
  pub trace : List Event

-- How a piece of code ends: with a result, in a system call that has not returned, by a failed `assert`, by an
-- access that C leaves undefined, or by `exit` or a return from `main` with a status.
pub data Outcome (A : Type 0) : Type 0 where
  done : A → Outcome A
  blocked : Outcome A
  aborted : Outcome A
  undefined : Outcome A
  exited : ℕ → Outcome A

abbrev pub M : Type 0 → Type 0
M A = World → Outcome A × World

abbrev pub resume : {A B : Type 0} → Outcome A → World → (A → M B) → Outcome B × World
resume (done a) w f = f a w
resume blocked w f = (blocked, w)
resume aborted w f = (aborted, w)
resume undefined w f = (undefined, w)
resume (exited n) w f = (exited n, w)

infixl 5 ◌>>=◌ ◌>>◌
abbrev pub ◌>>=◌ : {A B : Type 0} → M A → (A → M B) → M B
◌>>=◌ m f w = resume (m w).0 (m w).1 f

abbrev pub ◌>>◌ : {B : Type 0} → M (Unit {0}) → M B → M B
m >> k = m >>= λ _. k

abbrev pub return : {A : Type 0} → A → M A
return a w = (done a, w)

-- A computation with no system call.
abbrev pub lift : {A : Type 0} → Outcome A → M A
lift r w = (r, w)

-- An access through a pointer that may be NULL, or out of bounds.
abbrev pub deref : {A : Type 0} → Option A → Outcome A
deref none = undefined
deref (some a) = done a

-- `assert(p)` on a pointer
abbrev pub assert_found : {A : Type 0} → Option A → Outcome A
assert_found none = aborted
assert_found (some a) = done a

-- The chain of an `Outcome` and what follows it.
abbrev pub and_then : {A B : Type 0} → Outcome A → (A → Outcome B) → Outcome B
and_then (done a) f = f a
and_then blocked f = blocked
and_then aborted f = aborted
and_then undefined f = undefined
and_then (exited n) f = exited n

abbrev pub emit : Event → M (Unit {0})
emit e w = (done tt, record w { trace = e ∷ w.trace })

-- A read's reply arrives.
abbrev pub take_reply : ℕ → Reply (List ℕ) → M (Reply (List ℕ))
take_reply fd (ok bs) w = (done (ok bs), record w { trace = received fd bs ∷ w.trace })
take_reply fd interrupted w = (done interrupted, w)
take_reply fd failed w = (done failed, w)

read_script : ℕ → List (Reply (List ℕ)) → M (Reply (List ℕ))
read_script fd [] w = (blocked, w)
read_script fd (r ∷ rs) w = take_reply fd r (record w { reads = rs })

unfoldable pub read : ℕ → M (Reply (List ℕ))
unfolding read_script
read fd w = read_script fd w.reads w

-- A write's reply arrives.
abbrev pub give_reply : ℕ → List ℕ → Reply ℕ → M (Reply ℕ)
give_reply fd bs (ok n) w = (done (ok n), record w { trace = sent fd (take n bs) ∷ w.trace })
give_reply fd bs interrupted w = (done interrupted, w)
give_reply fd bs failed w = (done failed, w)

write_script : ℕ → List ℕ → List (Reply ℕ) → M (Reply ℕ)
write_script fd bs [] w = (blocked, w)
write_script fd bs (r ∷ rs) w = give_reply fd bs r (record w { writes = rs })

unfoldable pub write : ℕ → List ℕ → M (Reply ℕ)
unfolding write_script
write fd bs w = write_script fd bs w.writes w

-- `buffer[amountRead] = 0` in an array of `size` bytes, and the text that the array then holds.
unfoldable pub terminate : ℕ → List ℕ → Outcome (List ℕ)
terminate size bs = if ltb (length bs) size then done (c_str bs) else undefined

-- The bytes that the peer of `fd` has been given.
unfoldable pub delivered : ℕ → List Event → List ℕ
delivered fd [] = []
delivered fd (sent g bs ∷ es) = let rest = delivered fd es in if g == fd then rest ++ bs else rest
delivered fd (received g bs ∷ es) = delivered fd es
delivered fd (connecting h p ∷ es) = delivered fd es
delivered fd (spawned c d ∷ es) = delivered fd es
delivered fd (shut_down g ∷ es) = delivered fd es
delivered fd (closed g ∷ es) = delivered fd es

-- The bytes that came from the peer of `fd`.
unfoldable pub taken : ℕ → List Event → List ℕ
taken fd [] = []
taken fd (received g bs ∷ es) = let rest = taken fd es in if g == fd then rest ++ bs else rest
taken fd (sent g bs ∷ es) = taken fd es
taken fd (connecting h p ∷ es) = taken fd es
taken fd (spawned c d ∷ es) = taken fd es
taken fd (shut_down g ∷ es) = taken fd es
taken fd (closed g ∷ es) = taken fd es

-- The hosts that were connected to, the newest first.
unfoldable pub contacts : List Event → List (List ℕ)
contacts [] = []
contacts (connecting h p ∷ es) = h ∷ contacts es
contacts (sent g bs ∷ es) = contacts es
contacts (received g bs ∷ es) = contacts es
contacts (spawned c d ∷ es) = contacts es
contacts (shut_down g ∷ es) = contacts es
contacts (closed g ∷ es) = contacts es

-- How often `fd` was closed.
unfoldable pub closings : ℕ → List Event → ℕ
closings fd [] = 0
closings fd (closed g ∷ es) = let rest = closings fd es in if g == fd then suc rest else rest
closings fd (connecting h p ∷ es) = closings fd es
closings fd (sent g bs ∷ es) = closings fd es
closings fd (received g bs ∷ es) = closings fd es
closings fd (spawned c d ∷ es) = closings fd es
closings fd (shut_down g ∷ es) = closings fd es
