-- ===== src/MultiprocServ/Connecting.antt =====
-- Which address `connect_first` and `bind_first` choose.
use proxy.Base.{
  ℕ, ◌≡◌, ◌⊎◌, inl, inr, refl, ap, true, false, Bool-cases, Option, none, some, List, [], ◌∷◌, ◌++◌,
}
use proxy.Base.Int.{pos, negsuc, ℤ-cases}
use proxy.Sys.{World, connecting, closed, done}
use proxy.MultiprocServ.{Net, connect_first}

-- A socket for the address that connects.
abbrev pub Connects : Net → ℕ → ℕ → Type 0
Connects net addr fd = (net.socket addr ≡ pos fd) × (net.connects fd addr ≡ true)

-- No socket for the address, or one that does not connect.
abbrev pub Refuses : Net → ℕ → Type 0
Refuses net addr =
    ((n : ℕ) × (net.socket addr ≡ negsuc n))
    ⊎ ((fd : ℕ) × (net.socket addr ≡ pos fd) × (net.connects fd addr ≡ false))

abbrev pub AllRefuse : Net → List ℕ → Type 0
AllRefuse net [] = Unit {0}
AllRefuse net (addr ∷ addrs) = Refuses net addr × AllRefuse net addrs

-- The result of the loop: the first address that connects, or no address does.
abbrev pub IsFirst : Net → List ℕ → Option ℕ → Type 0
IsFirst net addrs none = AllRefuse net addrs
IsFirst net addrs (some fd) =
    (before : List ℕ) × (addr : ℕ) × (after : List ℕ) × (addrs ≡ before ++ (addr ∷ after))
    × AllRefuse net before
    × Connects net addr fd

module _ (net : Net) where
  IsFirst-cons :
      (addr : ℕ) (addrs : List ℕ) (p : Option ℕ)
      → Refuses net addr
      → IsFirst net addrs p
      → IsFirst net (addr ∷ addrs) p
  IsFirst-cons addr addrs none no_use rest = (no_use, rest)
  IsFirst-cons addr addrs (some fd) no_use (before, at, after, split, all, ok) =
      (addr ∷ before, at, after, ap (λ l. addr ∷ l) split, (no_use, all), ok)

  -- The loop over the addresses always ends, with the first address that connects if there is one,
  -- and with none only if each was refused.
  pub connect_first-IsFirst :
      (host port addrs : List ℕ) (w : World)
      → (p : Option ℕ) × ((connect_first net host port addrs w).0 ≡ done p) × IsFirst net addrs p
  unfolding connect_first
  connect_first-IsFirst host port [] w = (none, refl, tt)
  connect_first-IsFirst host port (addr ∷ addrs) w = elim (ℤ-cases (net.socket addr)) [
    | inr (n, e) ↦
        (let (p, r, first) = connect_first-IsFirst host port addrs w in
          (p, rw (connect_first, e) r, IsFirst-cons addr addrs p (inl (n, e)) first))
    | inl (fd, e) ↦ elim (Bool-cases (net.connects fd addr)) [
      | inl up ↦ (some fd, rw (connect_first, e) (rw up refl), ([], addr, addrs, refl, tt, (e, up)))
      | inr down ↦
          (let (p, r, first) =
              connect_first-IsFirst host port addrs
                (record w { trace = closed fd ∷ (connecting host port ∷ w.trace) }) in
            (
              p,
              rw (connect_first, e) (rw down r),
              IsFirst-cons addr addrs p (inr (fd, e, down)) first,
            ))
    ]
  ]
