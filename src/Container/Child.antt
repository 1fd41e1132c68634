-- ===== src/Container/Child.antt =====
-- The child's side of Containers/container.c. The results of its calls are only reported.
use proxy.Base.{ℕ, List, [], bytes}
use proxy.Base.Int.{pos}
use proxy.Container.Acts.{
  Text, fixed, numbered, ran, slept, mounted, made_dir, pivoted, unmounted, entered, closed_end,
  waited_end,
}
use proxy.Container.Acts.{Run, ◌>>◌, act}

-- `pivot_root`
unfoldable pub pivot_root : Text → Text → Run (Unit {0})
pivot_root a b = do act (mounted a a (bytes "bind")); act (made_dir b); act (pivoted a b)

abbrev pub run : List ℕ → Run (Unit {0})
run command = act (ran (fixed command))

-- `startContainer`, for the container's id and its command.
unfoldable pub start_container : ℕ → List ℕ → Run (Unit {0})
start_container id to_run = do
  act (slept 1)
  pivot_root (numbered (bytes "./busybox") (pos id) [])
      (numbered (bytes "./busybox") (pos id) (bytes "/.old"))
  act (mounted (fixed (bytes "tmpfs")) (fixed (bytes "/dev")) (bytes "tmpfs"))
  act (mounted (fixed (bytes "proc")) (fixed (bytes "/proc")) (bytes "proc"))
  act (unmounted (bytes "/.old"))
  act closed_end
  act waited_end
  run (bytes "ip link set veth1 up")
  run (bytes "ip link set veth1 up")
  run (bytes "ip addr add 169.254.1.2/30 dev veth1")
  act (entered (bytes "/"))
  run (bytes "adduser -D newuser")
  run (bytes "adduser -D sudouser")
  run (bytes "echo ' sudouser ALL=(ALL)   ALL' >> /etc/sudoers")
  run (bytes "cut -d: -f1 /etc/passwd")
  run (bytes "echo \"nameserver 8.8.8.8\" >> /etc/resolv.conf")
  run to_run
  run (bytes "deluser newuser")
  run (bytes "deluser sudouser")
