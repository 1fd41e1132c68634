-- ===== src/MultiprocServ/Reaping.antt =====
-- The handler of SIGCHLD in multiproc_serv.c.
use proxy.Base.{
  ℕ, ◌≡◌, refl, ◌∙◌, Option, none, some, List, [], ◌∷◌, ◌++◌, append-nil, append_assoc, sym,
}

-- `errno`, and the children that have been waited for, the oldest first.
pub record Process : Type 0 where
  pub errno : ℕ
  pub reaped : List ℕ

-- The loop: `waitpid` gives these pids, and then 0, or -1 with an error.
unfoldable pub wait_all : List ℕ → Option ℕ → Process → Process
wait_all [] none s = s
wait_all [] (some error) s = record s { errno = error }
wait_all (pid ∷ pids) last s = wait_all pids last (record s { reaped = s.reaped ++ (pid ∷ []) })

-- `sigchld_handler`
unfoldable pub sigchld_handler : List ℕ → Option ℕ → Process → Process
sigchld_handler pids last s = record (wait_all pids last s) { errno = s.errno }

reaped-wait_all :
    (pids : List ℕ) (last : Option ℕ) (s : Process)
    → (wait_all pids last s).reaped ≡ s.reaped ++ pids
unfolding wait_all
reaped-wait_all [] none s = sym (append-nil s.reaped)
reaped-wait_all [] (some error) s = sym (append-nil s.reaped)
reaped-wait_all (pid ∷ pids) last s =
    reaped-wait_all pids last (record s { reaped = s.reaped ++ (pid ∷ []) })
    ∙ append_assoc s.reaped (pid ∷ []) pids

-- The handler waits for each child that has ended, and leaves `errno` to the code that it
-- interrupts as it was.
pub sigchld_handler-reaped :
    (pids : List ℕ) (last : Option ℕ) (s : Process)
    → let s' = sigchld_handler pids last s in (s'.reaped ≡ s.reaped ++ pids) × (s'.errno ≡ s.errno)
unfolding sigchld_handler
sigchld_handler-reaped pids last s = (reaped-wait_all pids last s, refl)
