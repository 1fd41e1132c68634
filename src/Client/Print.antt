-- ===== src/Client/Print.antt =====
-- When client.c prints the answer.
use proxy.Base.{
  ℕ, ◌≡◌, ◌↔◌, refl, true, none, some, inl, inr, ◌⊎◌, List, ◌∷◌, bytes, length, take, subst, sym,
  ◌∙◌, Option-cases,
}
use proxy.Base.Int.{pos}
use proxy.CString.{array_str}
use proxy.CString.Laws.{Lacks, array_str-Lacks, Lacks-array_str}
use proxy.Sys.{Reply, ok, World, Outcome, undefined, exited, connecting, sent}
use proxy.Sys.Laws.{write_ok, read_ok}
use proxy.Utils.{Net}
use proxy.Client.{main, talk, argument, printed}

-- The program's run, once it talks to the server.
abbrev Printed : Outcome (Unit {0}) → List ℕ → Type 0
Printed r bs = ((r ≡ exited 0) ⊎ (r ≡ undefined)) × ((r ≡ undefined) ↔ Lacks 0 bs)

talk-Printed :
    (fd : ℕ) (res bs : List ℕ) (w : World) {rs : List (Reply (List ℕ))} {ws : List (Reply ℕ)}
    → w.writes ≡ ok (length res) ∷ ws
    → w.reads ≡ ok bs ∷ rs
    → Printed (talk (pos fd) (some res) w).0 bs
unfolding talk printed
talk-Printed fd res bs w {rs} {ws} hw hr =
    let w₁ : World = record w { writes = ws; trace = sent fd (take (length res) res) ∷ w.trace } in
    rw (write_ok fd res w hw) (
      rw (read_ok fd w₁ hr) (elim (Option-cases (array_str bs)) [
        | inl absent ↦ rw absent (inr refl, (λ e. Lacks-array_str bs absent, λ l. refl))
        | inr (text, found) ↦ rw found (
          inl refl,
          (λ e. cc, λ l. (let h : none ≡ some text = sym (array_str-Lacks bs l) ∙ found in cc)),
        )
      ]))

-- If the server takes the connection and the message whole, and the answer arrives in one read, then
-- the program ends with status 0 or its run is undefined, and it is undefined exactly if the answer
-- has no NUL: the array is printed as if the read had ended it.
pub main-printed :
    (net : Net) (argv : List (List ℕ)) (res bs : List ℕ) (w : World) (addr fd : ℕ)
    {rs : List (Reply (List ℕ))} {ws : List (Reply ℕ)}
    → net.getaddrinfo (bytes "127.0.0.1") (bytes "1358") ≡ some addr
    → net.socket ≡ pos fd
    → net.connects net.socket addr ≡ true
    → argument argv ≡ some res
    → w.writes ≡ ok (length res) ∷ ws
    → w.reads ≡ ok bs ∷ rs
    → (((main net argv w).0 ≡ exited 0) ⊎ ((main net argv w).0 ≡ undefined))
      × (((main net argv w).0 ≡ undefined) ↔ Lacks 0 bs)
unfolding main
main-printed net argv res bs w addr fd known up conn arg hw hr =
    let w₁ : World = record w { trace = connecting (bytes "127.0.0.1") (bytes "1358") ∷ w.trace } in
    rw known (
      rw conn (
        rw arg (
          subst (λ z. Printed (talk z (some res) w₁).0 bs) (sym up)
            (talk-Printed fd res bs w₁ hw hr))))
