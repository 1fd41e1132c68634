-- ===== src/Server/Main/Race.antt =====
-- The accept loop as it is: a descriptor can be overwritten before its thread has read it.
use proxy.Base.{ℕ, ◌+◌, ◌<◌, ◌≡◌, refl, ◌≢◌, ◌⊎◌, inl, inr, ap, sym, List, [], ◌∷◌, arith, length}
use proxy.Server.Main.{
  Loop, fresh, accept_round, read_argument, Step, accept, begin, Reach, here, next,
}

-- The descriptor is in the list.
abbrev pub Among : ℕ → List ℕ → Type 0
Among fd [] = ⊥
Among fd (x ∷ xs) = (x ≡ fd) ⊎ Among fd xs

-- Every descriptor of the first list is in the second.
abbrev pub AllAmong : List ℕ → List ℕ → Type 0
AllAmong [] accepted = Unit {0}
AllAmong (x ∷ xs) accepted = Among x accepted × AllAmong xs accepted

AllAmong-cons : (xs accepted : List ℕ) (fd : ℕ) → AllAmong xs accepted → AllAmong xs (fd ∷ accepted)
AllAmong-cons [] accepted fd h = tt
AllAmong-cons (x ∷ xs) accepted fd (m, h) = (inr m, AllAmong-cons xs accepted fd h)

-- What holds in every reachable state.
pub record IsSound (s : Loop) : Type 0 where
  -- Each `accept` has made one thread.
  pub counted : length s.serving + s.created ≡ length s.accepted
  -- A thread that has not run yet will read a descriptor that was accepted.
  pub pending : (s.accepted ≡ []) ⊎ Among s.client_fd s.accepted
  -- No thread serves a descriptor that was not accepted.
  pub served : AllAmong s.serving s.accepted

Step-IsSound : {s t : Loop} → Step s t → IsSound s → IsSound t
unfolding accept_round read_argument
Step-IsSound (accept s fd p) v = record {
  counted = omega (arith, v.counted);
  pending = inr (inl refl);
  served = AllAmong-cons s.serving s.accepted fd v.served;
}
Step-IsSound (begin s n e) v = record {
  counted = omega (arith, v.counted, e);
  pending = v.pending;
  served = serve v.pending;
}
  where
    serve :
        (s.accepted ≡ []) ⊎ Among s.client_fd s.accepted
        → AllAmong (s.client_fd ∷ s.serving) s.accepted
    serve (inl none_yet) = absurd (omega (arith, v.counted, e, ap length none_yet))
    serve (inr on) = (on, v.served)

-- In every reachable state each accepted descriptor has made exactly one thread, and every thread
-- serves a descriptor that was accepted.
pub Reach-IsSound : {s : Loop} → Reach fresh s → IsSound s
Reach-IsSound here = record { counted = omega arith; pending = inl refl; served = tt }
Reach-IsSound (next r st) = Step-IsSound st (Reach-IsSound r)

abbrev mixed : ℕ → ℕ → Loop
mixed fd fd' = record {
  client_fd = fd';
  created = 0;
  serving = fd' ∷ fd' ∷ [];
  accepted = fd' ∷ fd ∷ [];
}

Reach-mixed : (fd fd' : ℕ) → 0 < fd → 0 < fd' → Reach fresh (mixed fd fd')
unfolding accept_round read_argument
Reach-mixed fd fd' p q =
    next (next (next (next here (accept _ fd p)) (accept _ fd' q)) (begin _ 1 refl))
      (begin _ 0 refl)

-- For any two descriptors that `accept` gives in turn there is a run in which both threads serve the
-- second and nobody serves the first.
pub two_serve_one :
    (fd fd' : ℕ)
    → 0 < fd
    → 0 < fd'
    → fd ≢ fd'
    → (s : Loop) × Reach fresh s
      × (s.accepted ≡ fd' ∷ fd ∷ [])
      × (s.serving ≡ fd' ∷ fd' ∷ [])
      × (s.created ≡ 0)
      × (¬ Among fd s.serving)
two_serve_one fd fd' p q ne = (mixed fd fd', Reach-mixed fd fd' p q, refl, refl, refl, unserved)
  where
    unserved : ¬ Among fd (fd' ∷ fd' ∷ [])
    unserved (inl e) = ne (sym e)
    unserved (inr (inl e)) = ne (sym e)
    unserved (inr (inr m)) = m
