-- ===== src/Server/Protocol.antt =====
-- What a thread of server.c may do with its client, as an automaton over the events of its trace.
pub mod Refines
use proxy.Base.{ℕ, ◌==◌, if◌then◌else◌, Option, none, some, List, [], ◌∷◌}
use proxy.Sys.{Event, received, sent, connecting, spawned, shut_down, closed}

-- Where the thread is with its client, and with the destination once it has one.
pub data Phase : Type 0 where
  -- Before the request, with a request, and in the answer to a client that is turned away.
  idle asked refusing refused : Phase
  -- After `connect`, and while the two are joined.
  reaching : Phase
  joined : ℕ → Phase
  -- The four steps of the end: the client is shut down, the client is closed, the destination is
  -- shut down, all is closed.
  ending closed_client last : ℕ → Phase
  over : Phase

-- The phase that follows, if the descriptor is the expected one.
abbrev pub on : ℕ → ℕ → Phase → Option Phase
on fd expected p = if fd == expected then some p else none

-- The events that a phase allows.
abbrev pub advance : ℕ → Phase → Event → Option Phase
advance client idle (received g bs) = on g client asked
advance client idle (sent g bs) = on g client refusing
advance client idle (shut_down g) = on g client refused
advance client asked (sent g bs) = on g client refusing
advance client asked (shut_down g) = on g client refused
advance client asked (connecting h p) = some reaching
advance client refusing (sent g bs) = on g client refusing
advance client refusing (shut_down g) = on g client refused
advance client refused (closed g) = on g client over
advance client reaching (sent g bs) = on g client reaching
advance client reaching (spawned c d) = on c client (joined d)
advance client (joined d) (received g bs) = on g client (joined d)
advance client (joined d) (sent g bs) = on g d (joined d)
advance client (joined d) (shut_down g) = on g client (ending d)
advance client (ending d) (closed g) = on g client (closed_client d)
advance client (closed_client d) (shut_down g) = on g d (last d)
advance client (last d) (closed g) = on g d over
advance client p e = none

abbrev pub then_advance : ℕ → Option Phase → Event → Option Phase
then_advance client none e = none
then_advance client (some p) e = advance client p e

-- The phase after a trace, `none` if some event was not allowed.
unfoldable pub phase : ℕ → List Event → Option Phase
phase client [] = some idle
phase client (e ∷ es) = then_advance client (phase client es) e
