-- ===== src/Server/Main/Started.antt =====
-- A server that has started, and any of its threads.
use proxy.Base.{ℕ, ◌≡◌, refl, sym, subst, ◌∙◌, ◌⊎◌, Bool, true, false, some, List, ◌∷◌}
use proxy.Sys.{done, World, contacts, assert_found}
use proxy.Sys.Laws.{and_then-done, assert_found-done, done-injective}
use proxy.SimpleSet.{SimpleSet, IsLawful}
use proxy.Utils.{Net}
use proxy.Server.{load, handle_connection}
use proxy.Server.Lines.{OnList}
use proxy.Server.Blocklist.{AllStored}
use proxy.Server.Handle.{handle_connection-contacts}
use proxy.Server.Main.{Host, start, assert_true, or_exit}

assert_true-done : (b : Bool) {u : Unit {0}} → assert_true b ≡ done u → b ≡ true
assert_true-done true h = refl
assert_true-done false h = cc

or_exit-done : (b : Bool) {u : Unit {0}} → or_exit b ≡ done u → b ≡ true
or_exit-done true h = refl
or_exit-done false h = cc

-- What a start that reaches the accept loop has done.
record IsUp (S : SimpleSet) (host : Host) (s : S.State) : Type 0 where
  lines : List (List ℕ)
  opened : host.file ≡ some lines
  loaded : load S S.set_init lines ≡ done s
  bound : host.binds ≡ true
  listening : host.listens ≡ true

start-IsUp : (S : SimpleSet) (host : Host) {s : S.State} → start S host ≡ done s → IsUp S host s
unfolding start
start-IsUp S host {s} h =
    let (lines, opened, h₁) = and_then-done (assert_found host.file) _ h in
    let (s', loaded, h₂) = and_then-done (load S S.set_init lines) _ h₁ in
    let (u, address, h₃) = and_then-done (assert_true host.address) _ h₂ in
    let (u', binds, h₄) = and_then-done (or_exit host.binds) _ h₃ in
    let (u'', listens, h₅) = and_then-done (or_exit host.listens) _ h₄ in
    record {
      lines = lines;
      opened = assert_found-done host.file opened;
      loaded = subst (λ x. load S S.set_init lines ≡ done x) (done-injective h₅) loaded;
      bound = or_exit-done host.binds binds;
      listening = or_exit-done host.listens listens;
    }

-- If the start of server.c succeeds and stores every line of blocked_list.txt, then a thread,
-- whatever its client sends and the network answers, connects to no host that a line of the file
-- names, and to one host at most.
pub start-contacts :
    (S : SimpleSet) (L : IsLawful S) (host : Host) (lines : List (List ℕ)) {s : S.State}
    → host.file ≡ some lines
    → start S host ≡ done s
    → AllStored S S.set_init lines
    → (net : Net) (client_fd : ℕ) (w : World)
    → let w' = (handle_connection S net s client_fd w).1 in
      (contacts w'.trace ≡ contacts w.trace)
      ⊎ ((name : List ℕ) × (contacts w'.trace ≡ name ∷ contacts w.trace) × (¬ OnList name lines))
start-contacts S L host lines {s} file up stored net client_fd w =
    let started = start-IsUp S host up in
    let same : some started.lines ≡ some lines = sym started.opened ∙ file in
    let loaded : load S S.set_init lines ≡ done s =
      subst (λ l. load S S.set_init l ≡ done s) (some-injective same) started.loaded in
    handle_connection-contacts S L net lines loaded stored client_fd w
  where
    some-injective : {a b : List (List ℕ)} → some a ≡ some b → a ≡ b
    some-injective e = cc
