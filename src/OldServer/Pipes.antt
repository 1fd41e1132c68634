-- ===== src/OldServer/Pipes.antt =====
-- The descriptors of `makeReq` and of its child: what `dup2` and `close` leave of the two pipes.
use proxy.Base.{
  ℕ, ◌<◌, ◌≡◌, ◌≢◌, ◌⊎◌, inl, inr, arith, Option, none, some, ◌==◌, if◌then◌else◌, zero, suc, sym,
  ◌∙◌,
}
use proxy.OldServer.{Child}

-- What a descriptor stands for: an end of one of the two pipes, or something else.
pub data End : Type 0 where
  to_ssl_read to_ssl_write from_ssl_read from_ssl_write : End
  other : ℕ → End

-- The descriptors of a process.
abbrev pub Table : Type 0
Table = ℕ → Option End

abbrev pub dup2 : ℕ → ℕ → Table → Table
dup2 old new t fd = if fd == new then t old else t fd

abbrev pub close : ℕ → Table → Table
close old t fd = if fd == old then none else t fd

abbrev pub put : ℕ → End → Table → Table
put new e t fd = if fd == new then some e else t fd

-- The table after both calls of `pipe`, which the parent keeps until its child has ended.
unfoldable pub opened : Child → Table → Table
opened c base =
    put c.from_write from_ssl_write
      (put c.from_read from_ssl_read (put c.to_write to_ssl_write (put c.to_read to_ssl_read base)))

-- The child after `fork`, up to its search for the host.
unfoldable pub redirect : Child → Table → Table
redirect c t = close c.to_write (
    close c.to_read
      (close c.from_read (close c.from_write (dup2 c.to_read 0 (dup2 c.from_write 1 t)))))

-- The four descriptors are different, and none is the standard input or output.
pub record IsFresh (c : Child) : Type 0 where
  pub to_read_high : 1 < c.to_read
  pub to_write_high : 1 < c.to_write
  pub from_read_high : 1 < c.from_read
  pub from_write_high : 1 < c.from_write
  pub to_ne : c.to_read ≢ c.to_write
  pub from_ne : c.from_read ≢ c.from_write
  pub read_ne : c.to_read ≢ c.from_read
  pub write_ne : c.to_write ≢ c.from_write
  pub cross_ne : c.to_read ≢ c.from_write
  pub other_ne : c.to_write ≢ c.from_read

-- No descriptor of the table is an end of the pipes.
abbrev pub IsUnpiped : Table → Type 0
IsUnpiped t = (fd : ℕ) → (t fd ≡ none) ⊎ ((n : ℕ) × (t fd ≡ some (other n)))

some-injective : {A : Type 0} {a b : A} → some a ≡ some b → a ≡ b
some-injective h = cc

none-some : {A : Type 0} {a : A} → ◌≢◌ {A = Option A} none (some a)
none-some h = cc

module _ (c : Child) (F : IsFresh c) (base : Table) where
  redirect-input : redirect c (opened c base) 0 ≡ some to_ssl_read
  unfolding redirect opened
  redirect-input = ground (
    arith, F.to_read_high, F.to_write_high, F.from_read_high, F.from_write_high, F.to_ne, F.read_ne,
    F.cross_ne,
  )

  redirect-output : redirect c (opened c base) 1 ≡ some from_ssl_write
  unfolding redirect opened
  redirect-output =
      ground (arith, F.to_read_high, F.to_write_high, F.from_read_high, F.from_write_high)

  redirect-others :
      (fd : ℕ)
      → 1 < fd
      → (redirect c (opened c base) fd ≡ none) ⊎ (redirect c (opened c base) fd ≡ base fd)
  unfolding redirect opened
  redirect-others fd high = ground arith

  -- An end that the child does not use stands in its table only where it stood before.
  redirect-unused :
      (e : End)
      → e ≢ to_ssl_read
      → e ≢ from_ssl_write
      → (fd : ℕ) → redirect c (opened c base) fd ≡ some e
      → base fd ≡ some e
  redirect-unused e in_ne out_ne zero held =
      absurd (in_ne (some-injective (sym held ∙ redirect-input)))
  redirect-unused e in_ne out_ne (suc zero) held =
      absurd (out_ne (some-injective (sym held ∙ redirect-output)))
  redirect-unused e in_ne out_ne (suc (suc n)) held =
      elim (redirect-others (suc (suc n)) (omega arith)) [
        | inl gone ↦ absurd (none-some (sym gone ∙ held))
        | inr same ↦ sym same ∙ held
      ]

  unpiped-ne : IsUnpiped base → (e : End) → ((n : ℕ) → e ≢ other n) → (fd : ℕ) → base fd ≢ some e
  unpiped-ne U e ne fd held = elim (U fd) [
    | inl gone ↦ none-some (sym gone ∙ held)
    | inr (n, own) ↦ ne n (some-injective (sym held ∙ own))
  ]

  -- If the descriptors of the two pipes are different and above those of the standard input and
  -- output, and the process had no other ends of them, then the child reads from the one pipe and
  -- writes into the other and has no descriptor of the two other ends. The table of the parent, as
  -- it stands until it closes them behind `waitpid`, has the ends for writing of both pipes.
  pub redirect-ends :
      IsUnpiped base
      → let parent = opened c base in
        let child = redirect c parent in
        (child 0 ≡ some to_ssl_read)
        × (child 1 ≡ some from_ssl_write)
        × ((fd : ℕ) → child fd ≢ some to_ssl_write)
        × ((fd : ℕ) → child fd ≢ some from_ssl_read)
        × (parent c.from_write ≡ some from_ssl_write)
        × (parent c.to_write ≡ some to_ssl_write)
  unfolding opened
  redirect-ends U = (
    redirect-input,
    redirect-output,
    λ fd h.
        unpiped-ne U to_ssl_write (λ n e. cc) fd
          (redirect-unused to_ssl_write (λ e. cc) (λ e. cc) fd h),
    λ fd h.
        unpiped-ne U from_ssl_read (λ n e. cc) fd
          (redirect-unused from_ssl_read (λ e. cc) (λ e. cc) fd h),
    ground arith,
    ground (arith, F.to_ne, F.write_ne, F.other_ne),
  )
