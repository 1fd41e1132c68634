-- ===== src/Client.antt =====
-- client.c: the test client that sends one message and prints the answer.
pub mod Print
use proxy.Base.{ℕ, ◌*◌, ◌-◌, Bool, true, false, Option, none, some, List, [], ◌∷◌, bytes}
use proxy.Base.Int.{ℤ, pos, negsuc}
use proxy.CString.{array_str}
use proxy.Sys.{
  Reply, ok, interrupted, failed, World, Outcome, done, blocked, aborted, undefined, exited,
}
use proxy.Sys.{
  M, ◌>>=◌, ◌>>◌, return, resume, lift, deref, emit, read, write, Event, connecting, closed,
}
use proxy.Utils.{Net}
use proxy.Server.Main.{or_exit}

-- `argv[1]`, NULL where there is none.
abbrev pub argument : List (List ℕ) → Option (List ℕ)
argument [] = none
argument (name ∷ []) = none
argument (name ∷ res ∷ args) = some res

-- The text that `puts(buffer)` prints. Only the bytes that were read are set, so with no NUL among
-- them, and after a failed read, it reads what the stack holds.
unfoldable pub printed : Reply (List ℕ) → Outcome (List ℕ)
printed (ok bs) = deref (array_str bs)
printed interrupted = undefined
printed failed = undefined

-- What the calls on a negative descriptor do: they fail, so nothing is read.
abbrev pub open_fd : ℤ → Outcome ℕ
open_fd (pos fd) = done fd
open_fd (negsuc n) = undefined

-- The part of `main` after the connection.
unfoldable pub talk : ℤ → Option (List ℕ) → M (Unit {0})
talk socket argument = do
  res ← lift (deref argument)
  sock_fd ← lift (open_fd socket)
  r ← write sock_fd res
  r' ← read sock_fd
  text ← lift (printed r')
  emit (closed sock_fd)
  lift (exited 0)

-- `main`. A failed `getaddrinfo` leaves `result` uninitialised.
unfoldable pub main : Net → List (List ℕ) → M (Unit {0})
main net argv = do
  addr ← lift (deref (net.getaddrinfo (bytes "127.0.0.1") (bytes "1358")))
  emit (connecting (bytes "127.0.0.1") (bytes "1358"))
  lift (or_exit (net.connects net.socket addr))
  talk net.socket (argument argv)
