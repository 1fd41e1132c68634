-- ===== src/ContainerTest.antt =====
-- Containers/test.c: the trial of one container on a bridge.
pub mod Names
use proxy.Base.{
  ℕ, zero, suc, ◌+◌, Bool, true, false, if◌then◌else◌, ltb, List, [], ◌∷◌, ◌++◌, bytes, length,
  take,
}
use proxy.Base.Int.{ℤ, pos}
use proxy.CString.{c_str}
use proxy.Sys.{Outcome, done, blocked, aborted, undefined, exited, and_then}
use proxy.Container.Acts.{
  Text, fixed, numbered, Act, ran, mounted, unmounted, entered, unshared, named_domain, named_host,
  executed, cloned, waited,
}
use proxy.Container.Acts.{Run, resume, ◌>>=◌, ◌>>◌, act, lift}
use proxy.Container.Child
use proxy.Container.Child.{run}
use Prim.Native.Nat.{◌%◌}

-- `pivot_root`, word for word the one of Containers/container.c.
abbrev pub pivot_root : Text → Text → Run (Unit {0})
pivot_root a b = Child.pivot_root a b

-- `array[i] = b` for an array of `size`.
abbrev pub store : ℕ → ℕ → ℕ → List ℕ → Outcome (List ℕ)
store size i b array = if ltb i size then done (take i array ++ (b ∷ [])) else undefined

-- The letters that the loop of `rand_char` puts into `new`, for the results of `rand`.
unfoldable pub letters : List ℕ → List ℕ
letters [] = []
letters (r ∷ rs) = (b'A' + r % 26) ∷ letters rs

-- `rand_char`: the text for `size` results of `rand`, with a NUL behind the array of `size`.
unfoldable pub rand_char : List ℕ → Outcome (List ℕ)
rand_char rands =
    let size = length rands in
    and_then (store size size 0 (letters rands)) λ new. done (take size new)

-- `create_peer`, for four results of `rand`.
unfoldable pub create_peer : List ℕ → Run (Unit {0})
create_peer rands = do
  id ← lift (rand_char rands)
  run (bytes "ip link add veth" ++ (c_str id ++ bytes " type veth peer name veth1"))
  run (bytes "ip link set veth" ++ (c_str id ++ bytes " up"))
  run (bytes "brctl addif br0 veth" ++ c_str id)

-- `network_setup`
unfoldable pub network_setup : ℤ → Run (Unit {0})
network_setup pid = act (ran (numbered (bytes "ip link set veth1 netns ") pid []))

-- `child_exec`, for the address and the command. It does not come back if the command is found.
unfoldable pub child_exec : List ℕ → List (List ℕ) → Run (Unit {0})
child_exec address cmd_arg = do
  act unshared
  act (unmounted (bytes "/proc"))
  pivot_root (fixed (bytes "./busy")) (fixed (bytes "./busy/.old"))
  act (mounted (fixed (bytes "tmpfs")) (fixed (bytes "/dev")) (bytes "tmpfs"))
  act (mounted (fixed (bytes "proc")) (fixed (bytes "/proc")) (bytes "proc"))
  act (mounted (fixed (bytes "t")) (fixed (bytes "/sys")) (bytes "sysfs"))
  act (entered (bytes "/"))
  act (unmounted (bytes "/.old"))
  act (named_domain (bytes "container"))
  act (named_host (bytes "container01"))
  run (bytes "ip link set veth1 up")
  run (bytes "ip addr add " ++ (address ++ bytes "/24 dev veth1"))
  run (bytes "route add default gw 172.16.0.100 veth1")
  act (executed cmd_arg)

-- `main`, for the results of `rand` and the pid that `clone` returns, which is only reported if it
-- is below 0.
unfoldable pub main : List ℕ → ℤ → Run (Unit {0})
main rands pid = do
  run (bytes "mount --make-rprivate  /")
  create_peer rands
  act (cloned pid)
  network_setup pid
  act (waited pid)
  lift (exited 0)
