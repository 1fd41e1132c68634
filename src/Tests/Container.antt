-- ===== src/Tests/Container.antt =====
-- Containers/container.c
use proxy.Base.{◌≤◌, ◌≡◌, refl, List, [], ◌∷◌, ◌++◌, bytes, length, ℕ, arith}
use proxy.Base.Int.{ℤ, pos}
use proxy.Sys.{exited}
use proxy.Container.{
  Input, typed, sigint, begin, main_loop, numbers, children, waits, copy_root, remove_root,
}
use proxy.Vector.Listed.{listed_vector, listed_vector-IsLawful}
use proxy.Container.Cleanup.{main_loop-begin}
use proxy.Container.{cut_round}
use proxy.Container.Cut.{rounds, cut_round-leaves}
use proxy.Container.{round}

abbrev inputs : List Input
inputs =
    typed (bytes "ls" ++ (10 ∷ [])) (pos 100)
    ∷ typed (bytes "sh" ++ (10 ∷ [])) (pos 101)
    ∷ sigint
    ∷ []

ends : (main_loop listed_vector inputs (begin listed_vector)).0 ≡ exited 0
unfolding main_loop
ends = refl

main_loop-begin_example :
    let calls = (main_loop listed_vector inputs (begin listed_vector)).1.calls in
    (numbers remove_root calls ≡ numbers copy_root calls)
    × (waits calls ≡ children calls)
    × (length (children calls) ≤ 10)
main_loop-begin_example = main_loop-begin listed_vector listed_vector-IsLawful inputs tt ends

abbrev one_typed : List (List ℕ × ℤ)
one_typed = (bytes "ls" ++ (10 ∷ []), pos 100) ∷ []

cut_round-leaves_example :
    let calls =
      (cut_round listed_vector 2
        (bytes "sh" ++ (10 ∷ []))
        (pos 101)
        (rounds listed_vector one_typed (begin listed_vector))).calls in
    (numbers copy_root calls ≡ numbers remove_root calls ++ (pos 1 ∷ []))
    × (children calls ≡ waits calls ++ (pos 101 ∷ []))
unfolding round
cut_round-leaves_example =
    cut_round-leaves listed_vector listed_vector-IsLawful one_typed 2 (bytes "sh" ++ (10 ∷ []))
      (pos 101) (omega arith) (omega arith)
