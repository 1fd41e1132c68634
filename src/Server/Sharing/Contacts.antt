-- ===== src/Server/Sharing/Contacts.antt =====
-- The hosts that the threads of server.c connect to.
use proxy.Base.{
  refl, true, ℕ, ◌≡◌, ap, subst, ◌∙◌, inl, inr, some, List, [], ◌∷◌, arith, Bool-cases, ◌==◌,
}
use mathlib.Core.List.{Memᴰ}
use mathlib.Core.List.Memᴰ
use proxy.Sys.{Event, connecting, received, sent, spawned, shut_down, closed, World, done, contacts}
use proxy.SimpleSet.{SimpleSet, IsLawful}
use proxy.Utils.{Net}
use proxy.Server.Lines.{OnList}
use proxy.Server.Blocklist.{AllStored}
use proxy.Server.Main.{Host, start}
use proxy.Server.Main.Started.{start-contacts}
use proxy.Server.Sharing.{Table}
use proxy.Server.Sharing.Interleaving.{
  Calls, calls_of, Stage, absent, created, serving, Process, Interleaved,
}
use proxy.Server.Sharing.Handing.{calls_of-unread}
use proxy.Server.Sharing.Served.{AreRuns, trace_of}

pub calls_of-Memᴰ : (i : ℕ) (e : Event) (σ : Calls) → Memᴰ (i, e) σ → Memᴰ e (calls_of i σ)
unfolding calls_of
calls_of-Memᴰ i e [] m = absurd (Memᴰ.not-nil m)
calls_of-Memᴰ i e ((j, d) ∷ σ) (Memᴰ.head same) =
    let now : (i == j) ≡ true = ground (arith, ap (λ x. x.0) same) in
    rw now (Memᴰ.head (ap (λ x. x.1) same))
calls_of-Memᴰ i e ((j, d) ∷ σ) (Memᴰ.tail m) = elim (Bool-cases (i == j)) [
  | inl now ↦ rw now (Memᴰ.tail (calls_of-Memᴰ i e σ m))
  | inr other ↦ rw other (calls_of-Memᴰ i e σ m)
]

contacts-Memᴰ :
    (host port : List ℕ) (es : List Event)
    → Memᴰ (connecting host port) es
    → Memᴰ host (contacts es)
unfolding contacts
contacts-Memᴰ host port [] m = absurd (Memᴰ.not-nil m)
contacts-Memᴰ host port (connecting h p ∷ es) (Memᴰ.head same) = Memᴰ.head cc
contacts-Memᴰ host port (connecting h p ∷ es) (Memᴰ.tail m) =
    Memᴰ.tail (contacts-Memᴰ host port es m)
contacts-Memᴰ host port (sent g bs ∷ es) (Memᴰ.head same) = cc
contacts-Memᴰ host port (sent g bs ∷ es) (Memᴰ.tail m) = contacts-Memᴰ host port es m
contacts-Memᴰ host port (received g bs ∷ es) (Memᴰ.head same) = cc
contacts-Memᴰ host port (received g bs ∷ es) (Memᴰ.tail m) = contacts-Memᴰ host port es m
contacts-Memᴰ host port (spawned c d ∷ es) (Memᴰ.head same) = cc
contacts-Memᴰ host port (spawned c d ∷ es) (Memᴰ.tail m) = contacts-Memᴰ host port es m
contacts-Memᴰ host port (shut_down g ∷ es) (Memᴰ.head same) = cc
contacts-Memᴰ host port (shut_down g ∷ es) (Memᴰ.tail m) = contacts-Memᴰ host port es m
contacts-Memᴰ host port (closed g ∷ es) (Memᴰ.head same) = cc
contacts-Memᴰ host port (closed g ∷ es) (Memᴰ.tail m) = contacts-Memᴰ host port es m

module _ (S : SimpleSet) (L : IsLawful S) (host : Host) (lines : List (List ℕ)) (s : S.State)
    (file : host.file ≡ some lines) (up : start S host ≡ done s)
    (stored : AllStored S S.set_init lines) (nets : ℕ → Net) (worlds : ℕ → World)
    (fresh : (i : ℕ) → (worlds i).trace ≡ []) where
  thread-contacts :
      (i fd : ℕ) (name port : List ℕ)
      → Memᴰ (connecting name port) (trace_of S s nets worlds i fd)
      → ¬ OnList name lines
  unfolding contacts
  thread-contacts i fd name port m on =
      let met = contacts-Memᴰ name port (trace_of S s nets worlds i fd) m in
      elim (start-contacts S L host lines file up stored (nets i) fd (worlds i)) [
        | inl unmet ↦ Memᴰ.not-nil (subst (Memᴰ name) (unmet ∙ ap contacts (fresh i)) met)
        | inr (other, one, free) ↦
            let met₁ = subst (Memᴰ name) (one ∙ ap (λ es. other ∷ contacts es) (fresh i)) met in
            free (subst (λ h. OnList h lines) (Memᴰ.eq_of_singleton met₁) on)
      ]

  -- If the start of server.c succeeds and stores every line of blocked_list.txt, the threads run
  -- `HandleConnection` from empty traces, with their calls in any order, and the kernel gives only
  -- free descriptors, then at no moment has one of them connected to a host that a line of the file
  -- names, whichever client it has found in the variable of `main`.
  pub process-contacts :
      (base : Table) {σ : Calls} {p : Process}
      → Interleaved base σ p
      → AreRuns S s nets worlds σ p
      → (i : ℕ) (name port : List ℕ) → Memᴰ (i, connecting name port) σ
      → ¬ OnList name lines
  process-contacts base {σ} {p} order runs i name port m = go (p.stages i) refl
    where
      made : Memᴰ (connecting name port) (calls_of i σ)
      made = calls_of-Memᴰ i (connecting name port) σ m

      unread : calls_of i σ ≡ [] → ¬ OnList name lines
      unread e = absurd (Memᴰ.not-nil (subst (Memᴰ (connecting name port)) e made))

      go : (t : Stage) → p.stages i ≡ t → ¬ OnList name lines
      go absent e = unread (calls_of-unread i order (inl e))
      go created e = unread (calls_of-unread i order (inr e))
      go (serving fd) e =
          let (later, whole) = runs i fd e in
          thread-contacts i fd name port
            (subst (Memᴰ (connecting name port)) whole (Memᴰ.append_right later made))
