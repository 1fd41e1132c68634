-- ===== src/SslRedirect/Program.antt =====
-- The whole run of ssl-redirect.c.
use proxy.Base.{ℕ, ◌≡◌, refl}
use proxy.Sys.{World, Outcome, done, blocked, aborted, undefined, exited, contacts, resume}
use proxy.SimpleSet.{SimpleSet}
use proxy.Utils.{Net}
use proxy.Server.Main.{Host, start}
use proxy.SslRedirect.{main, main_connection}
use proxy.SslRedirect.Connection.{main_connection-exited}

-- If the program ends by itself, by `exit` or a return from `main` with whatever status and not by a
-- signal that kills it, then it has made no connection.
pub main-exited :
    (S : SimpleSet) (net : Net) (host : Host) (client_fd : ℕ) (w : World) (n : ℕ)
    → (main S net host client_fd w).0 ≡ exited n
    → contacts (main S net host client_fd w).1.trace ≡ contacts w.trace
unfolding main
main-exited S net host client_fd w n = go (start S host)
  where
    go :
        (r : Outcome S.State)
        → (resume r w (λ s. main_connection S net s client_fd)).0 ≡ exited n
        → contacts (resume r w (λ s. main_connection S net s client_fd)).1.trace ≡ contacts w.trace
    go (done s) h = main_connection-exited S net s client_fd w n h
    go blocked h = refl
    go aborted h = refl
    go undefined h = refl
    go (exited k) h = refl
