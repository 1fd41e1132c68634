-- ===== src/MultiprocServ/Started.antt =====
-- `main` of multiproc_serv.c, from its first call to its return.
use proxy.Base.{
  ℕ, zero, suc, ◌+◌, ◌≤◌, ◌≡◌, refl, ap, ◌∙◌, sym, ◌⊎◌, inl, inr, true, false, some, none, Option,
  List, [], ◌∷◌, ◌++◌, arith, length, map, append_assoc, append-nil, length-append, lt→ltb,
  Bool-cases, Bool, if◌then◌else◌, subst,
}
use proxy.Base.Int.{pos, negsuc, ℤ-cases}
use proxy.Sys.{done, blocked, exited, closed, World, ◌>>=◌, return, lift}
use proxy.Sys.Laws.{done-injective, resume-result}
use proxy.MultiprocServ.{
  Payload, Host, accept_loop, bind_first, listen_first, or_exit_with, max_threads, main,
}
use proxy.MultiprocServ.Threads.{load_of, accept_loop_full}

-- The descriptors of the first `left` accepts, up to the first that fails.
abbrev pub served : ℕ → List (Option ℕ) → List ℕ
served zero rs = []
served (suc left) [] = []
served (suc left) (none ∷ rs) = []
served (suc left) (some fd ∷ rs) = fd ∷ served left rs

-- An accept fails before `left` have succeeded, or that many have.
abbrev pub Enough : ℕ → List (Option ℕ) → Type 0
Enough zero rs = Unit {0}
Enough (suc left) [] = ⊥
Enough (suc left) (none ∷ rs) = Unit {0}
Enough (suc left) (some fd ∷ rs) = Enough left rs

pub length-served : (left : ℕ) (rs : List (Option ℕ)) → length (served left rs) ≤ left
length-served zero rs = omega arith
length-served (suc left) [] = omega arith
length-served (suc left) (none ∷ rs) = omega arith
length-served (suc left) (some fd ∷ rs) = omega (arith, length-served left rs)

accept_loop-served :
    (left sockfd : ℕ) (loads : List Payload) (rs : List (Option ℕ)) {out : List Payload}
    → length loads + left ≡ max_threads
    → accept_loop sockfd loads rs ≡ done out
    → (out ≡ loads ++ map (load_of sockfd) (served left rs)) × Enough left rs
unfolding accept_loop
accept_loop-served zero sockfd loads rs e h = (
  sym (done-injective (sym (accept_loop_full sockfd loads rs (omega (arith, e))) ∙ h))
      ∙ sym (append-nil loads),
  tt,
)
accept_loop-served (suc left) sockfd loads [] e h =
    let h' : blocked ≡ done _ = rw (lt→ltb (length loads) 20 (omega (arith, e))) at h in cc
accept_loop-served (suc left) sockfd loads (none ∷ rs) e h =
    (sym (done-injective h) ∙ sym (append-nil loads), tt)
accept_loop-served (suc left) sockfd loads (some fd ∷ rs) e h =
    let loads' = loads ++ (load_of sockfd fd ∷ []) in
    let longer : length loads' ≡ length loads + 1 = length-append loads (load_of sockfd fd ∷ []) in
    let (out, enough) =
      accept_loop-served left sockfd loads' rs (omega (arith, e, longer))
        (rw (lt→ltb (length loads) 20 (omega (arith, e))) at h) in
    (out ∙ append_assoc loads (load_of sockfd fd ∷ []) _, enough)

-- No socket for the address, or one that may be used again and is not bound.
abbrev pub Unbound : Host → ℕ → Type 0
Unbound host addr =
    ((n : ℕ) × (host.socket addr ≡ negsuc n))
    ⊎ ((fd : ℕ) × (host.socket addr ≡ pos fd)
        × (host.reuse fd ≡ true)
        × (host.binds fd addr ≡ false))

abbrev pub AllUnbound : Host → List ℕ → Type 0
AllUnbound host [] = Unit {0}
AllUnbound host (addr ∷ addrs) = Unbound host addr × AllUnbound host addrs

-- The descriptor is bound to the first address for which this can be.
abbrev pub BoundFirst : Host → List ℕ → ℕ → Type 0
BoundFirst host addrs fd =
    (before : List ℕ) × (addr : ℕ) × (after : List ℕ) × (addrs ≡ before ++ (addr ∷ after))
    × AllUnbound host before
    × (host.socket addr ≡ pos fd)
    × (host.reuse fd ≡ true)
    × (host.binds fd addr ≡ true)

module _ (host : Host) where
  BoundFirst-cons :
      (addr : ℕ) (addrs : List ℕ) (fd : ℕ)
      → Unbound host addr
      → BoundFirst host addrs fd
      → BoundFirst host (addr ∷ addrs) fd
  BoundFirst-cons addr addrs fd no_use (before, at, after, split, all, made, again, up) =
      (addr ∷ before, at, after, ap (λ l. addr ∷ l) split, (no_use, all), made, again, up)

  bind_first-BoundFirst :
      (addrs : List ℕ) (w : World) {fd : ℕ}
      → (bind_first host addrs w).0 ≡ done (some fd)
      → BoundFirst host addrs fd
  unfolding bind_first
  bind_first-BoundFirst [] w h = absurd (cc)
  bind_first-BoundFirst (addr ∷ addrs) w {fd} h = elim (ℤ-cases (host.socket addr)) [
    | inr (n, e) ↦
        BoundFirst-cons addr addrs fd (inl (n, e))
          (bind_first-BoundFirst addrs w (rw (bind_first, e) at h))
    | inl (s, e) ↦ elim (Bool-cases (host.reuse s)) [
      | inr gone ↦ (let h' : exited 1 ≡ done (some fd) = rw gone at (rw (bind_first, e) at h) in cc)
      | inl again ↦ elim (Bool-cases (host.binds s addr)) [
        | inl up ↦
            (let h' : done (some s) ≡ done (some fd) =
                rw (again, up) at (rw (bind_first, e) at h) in
              let same : s ≡ fd = cc in
              ([], addr, addrs, refl, tt, rw (← same) e, rw (← same) again, rw (← same) up))
        | inr down ↦ BoundFirst-cons addr addrs fd (inr (s, e, again, down)) (
            bind_first-BoundFirst addrs (record w { trace = closed s ∷ w.trace })
              (rw (again, down) at (rw (bind_first, e) at h)))
      ]
    ]
  ]

or_exit_with-done : {A : Type 0} (o : Option A) {a : A} → or_exit_with 1 o ≡ done a → o ≡ some a
or_exit_with-done none h = cc
or_exit_with-done (some a) h = cc

-- Two checks that end the program if they fail.
checked :
    (listens handles : Bool) (sockfd : ℕ) (w : World) {fd : ℕ}
    → (((if listens then return tt else lift (exited 1)) >>= λ (u : Unit {0}).
          if handles then return sockfd else lift (exited 1))
        w).0
      ≡ done fd
    → (listens ≡ true) × (handles ≡ true) × (sockfd ≡ fd)
checked true true sockfd w h = (refl, refl, done-injective h)
checked true false sockfd w h = cc
checked false handles sockfd w h = cc

module _ (host : Host) where
  -- If `main` returns 0, it listens on a socket bound to the first address for which this can be,
  -- and has created a thread for each of the first 20 clients, up to the first `accept` that fails,
  -- in order, each with the listening descriptor and its own client; and it did not return before
  -- that.
  pub main-served :
      (accepts : List (Option ℕ)) (w : World) {loads : List Payload}
      → (main host accepts w).0 ≡ done loads
      → (addrs : List ℕ) × (sockfd : ℕ) × (host.addresses ≡ some addrs)
        × BoundFirst host addrs sockfd
        × (host.listens sockfd ≡ true)
        × (host.handles ≡ true)
        × (loads ≡ map (load_of sockfd) (served max_threads accepts))
        × Enough max_threads accepts
  unfolding main listen_first
  main-served accepts w {loads} h =
      let (sockfd, listening, h₁) =
        resume-result (listen_first host w).0 (listen_first host w).1 _ h in
      let (addrs, known, h₂) = resume-result (or_exit_with 1 host.addresses) w _ listening in
      let (p, bound, h₃) =
        resume-result (bind_first host addrs w).0 (bind_first host addrs w).1 _ h₂ in
      let (fd, found, h₄) = resume-result (or_exit_with 1 p) (bind_first host addrs w).1 _ h₃ in
      let (listens, handles, same) = checked (host.listens fd) host.handles fd _ h₄ in
      let (out, enough) = accept_loop-served max_threads sockfd [] accepts refl h₁ in
      (
        addrs,
        sockfd,
        or_exit_with-done host.addresses known,
        subst (BoundFirst host addrs) same
            (bind_first-BoundFirst host addrs w (bound ∙ ap done (or_exit_with-done p found))),
        rw (← same) listens,
        handles,
        out,
        enough,
      )
