-- ===== src/ContainerTest/Names.antt =====
-- The name that Containers/test.c makes for its interface.
use proxy.Base.{ℕ, ◌≡◌, refl, false, ltb, arith, List, ◌∷◌, bytes, length}
use proxy.Base.Int.{ℤ}
use proxy.Sys.{undefined}
use proxy.Container.Acts.{Act, ran, fixed}
use proxy.ContainerTest.{rand_char, create_peer, main}

irreflexive : (n : ℕ) → ltb n n ≡ false
irreflexive n = ground arith

rand_char-undefined : (rands : List ℕ) → rand_char rands ≡ undefined
unfolding rand_char
rand_char-undefined rands = rw (irreflexive (length rands)) refl

-- Whatever `rand` gives, the program never starts its child: it writes the NUL of the interface's
-- name behind the array, and has run one command before.
pub main-undefined :
    (rands : List ℕ) (pid : ℤ) (acts : List Act)
    → main rands pid acts ≡ (undefined, ran (fixed (bytes "mount --make-rprivate  /")) ∷ acts)
unfolding main create_peer
main-undefined rands pid acts = rw (rand_char-undefined rands) refl
