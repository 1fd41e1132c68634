-- ===== src/Container.antt =====
-- Containers/container.c: the loop that starts containers, and the handler of SIGINT that cleans
-- up. The handler runs where `main` waits for its next command, or between two calls of a round:
-- while `system` waits, SIGINT is ignored.
pub mod Cleanup
pub mod Cut
pub mod Acts
pub mod Child
pub mod Pipe
use proxy.Base.{
  ℕ, zero, suc, ◌+◌, ◌-◌, ◌==◌, List, [], ◌∷◌, ◌++◌, bytes, if◌then◌else◌, length, take, drop,
  str_eq,
}
use proxy.Base.Int.{ℤ, pos}
use proxy.CString.{c_str}
use proxy.Vector.{IntVector}
use proxy.Sys.{Outcome, blocked, undefined, exited}

-- What the program has the kernel and the shell do. `system_of` is a text that `sprintf` ends with
-- a number.
pub data Call : Type 0 where
  system : List ℕ → Call
  system_of : List ℕ → ℤ → Call
  -- A child that was given an id and a command, with the pid that `clone` returned.
  cloned : ℕ → List ℕ → ℤ → Call
  closed : Call
  waited : ℤ → Call

-- MAX_PROCESS
abbrev pub max_process : ℕ
max_process = 10

-- The globals `containers` and `containerId`, and the calls so far, the newest first.
pub record Session (V : IntVector) : Type 0 where
  pub containers : V.State
  pub container_id : ℕ
  pub calls : List Call

abbrev pub copy_root : List ℕ
copy_root = bytes "cp -R busybox busybox"

abbrev pub remove_root : List ℕ
remove_root = bytes "rm -r busybox"

-- The calls of a round, the newest first: `clone` returns `child_pid` to the parent.
unfoldable pub launch : ℕ → List ℕ → ℤ → List Call
launch id to_run child_pid =
    closed
    ∷ system (bytes "ip addr add 169.254.1.1/30 dev veth0")
    ∷ system (bytes "ip link set veth0 up")
    ∷ system_of (bytes "ip link set veth1 netns ") child_pid
    ∷ system (bytes "ip link add veth0 type veth peer name veth1")
    ∷ cloned id to_run child_pid
    ∷ system_of copy_root (pos id)
    ∷ []

-- What `main` waits for: a line, with the pid that its `clone` returns, the end of the input, or
-- the signal; or the signal comes in the round of a line, where so many of its calls are left.
pub data Input : Type 0 where
  typed : List ℕ → ℤ → Input
  end_of_input : Input
  sigint : Input
  cut : ℕ → List ℕ → ℤ → Input

-- The calls of a round without the last `left`, the newest first.
unfoldable pub first_calls : ℕ → ℕ → List ℕ → ℤ → List Call
first_calls left id to_run child_pid = drop left (launch id to_run child_pid)

module _ (V : IntVector) where
  -- A round of the loop of `main`, for a line of at least its newline.
  unfoldable pub round : List ℕ → ℤ → Session V → Session V
  round line child_pid s =
      let cmd = c_str (take (length line - 1) line) in
      if V.size s.containers == max_process then s else record {
        containers = V.push_back s.containers child_pid;
        container_id = suc s.container_id;
        calls = launch s.container_id cmd child_pid ++ s.calls;
      }

  -- The loop of `handleSigint`, at `i`, with so many elements left.
  unfoldable pub reap : V.State → ℕ → ℕ → List Call → List Call
  reap containers i zero calls = calls
  reap containers i (suc left) calls =
      reap containers (suc i) left
        (system_of remove_root (pos i) ∷ (waited (V.get containers i) ∷ calls))

  unfoldable pub handle_sigint : Session V → Session V
  handle_sigint s = record s { calls = reap s.containers 0 (V.size s.containers) s.calls }

  -- A round that the handler cuts off where `left` of its 7 calls are left: the container has its
  -- id, and `vector_push_back` has not run. With 10 containers the round makes no call.
  unfoldable pub cut_round : ℕ → List ℕ → ℤ → Session V → Session V
  cut_round left line child_pid s =
      let cmd = c_str (take (length line - 1) line) in
      if V.size s.containers == max_process
      then handle_sigint s
      else handle_sigint (record s {
        container_id = suc s.container_id;
        calls = first_calls left s.container_id cmd child_pid ++ s.calls;
      })

  abbrev pub begin : Session V
  begin = record {
    containers = V.create;
    container_id = 0;
    calls = system (bytes "mount --make-rprivate  /") ∷ [];
  }

  -- The loop of `main`. At the end of the input -1 is the length of the line, and `cmd[-2]` is
  -- written.
  unfoldable pub main_loop : List Input → Session V → Outcome (Unit {0}) × Session V
  main_loop [] s = (blocked, s)
  main_loop (typed line child_pid ∷ inputs) s = main_loop inputs (round line child_pid s)
  main_loop (end_of_input ∷ inputs) s = (undefined, s)
  main_loop (sigint ∷ inputs) s = (exited 0, handle_sigint s)
  main_loop (cut left line child_pid ∷ inputs) s = (exited 0, cut_round left line child_pid s)

-- The numbers that the text was ended with, the oldest first.
unfoldable pub numbers : List ℕ → List Call → List ℤ
numbers text [] = []
numbers text (system_of t n ∷ calls) =
    let rest = numbers text calls in if str_eq t text then rest ++ (n ∷ []) else rest
numbers text (system t ∷ calls) = numbers text calls
numbers text (cloned id cmd pid ∷ calls) = numbers text calls
numbers text (closed ∷ calls) = numbers text calls
numbers text (waited pid ∷ calls) = numbers text calls

-- The pids of the children, and those that were waited for, the oldest first.
unfoldable pub children : List Call → List ℤ
children [] = []
children (cloned id cmd pid ∷ calls) = children calls ++ (pid ∷ [])
children (system_of t n ∷ calls) = children calls
children (system t ∷ calls) = children calls
children (closed ∷ calls) = children calls
children (waited pid ∷ calls) = children calls

unfoldable pub waits : List Call → List ℤ
waits [] = []
waits (waited pid ∷ calls) = waits calls ++ (pid ∷ [])
waits (system_of t n ∷ calls) = waits calls
waits (cloned id cmd pid ∷ calls) = waits calls
waits (system t ∷ calls) = waits calls
waits (closed ∷ calls) = waits calls
