-- ===== src/Redirect/Parsing.antt =====
-- Whom `parseReq` contacts.
use proxy.Base.{ℕ, ◌≡◌, refl, ◌⊎◌, inl, inr, false, List, ◌∷◌, Bool-cases, Option-cases}
use proxy.Sys.{done, World, contacts}
use proxy.Sys.Frames.{resume-world_known}
use proxy.Redirect.{request_host, is_blocked, Net, parse_req}

module _ (net : Net) (block_arr : List (List ℕ)) where
  -- `parseReq` connects to nobody, or once, to the host of the request, which the list then does
  -- not block.
  pub parse_req-contacts :
      (req : List ℕ) (w : World)
      → let w' = (parse_req net block_arr req w).1 in
        (contacts w'.trace ≡ contacts w.trace)
        ⊎ ((host : List ℕ) × (request_host req ≡ done host)
            × (is_blocked block_arr host ≡ false)
            × (contacts w'.trace ≡ host ∷ contacts w.trace))
  unfolding parse_req contacts
  parse_req-contacts req w =
      let P : World → Type 0 = λ v.
        (contacts v.trace ≡ contacts w.trace)
        ⊎ ((host : List ℕ) × (request_host req ≡ done host)
            × (is_blocked block_arr host ≡ false)
            × (contacts v.trace ≡ host ∷ contacts w.trace)) in
      resume-world_known P (request_host req) w _ (inl refl) λ host e.
        elim (Bool-cases (is_blocked block_arr host)) [
          | inl stop ↦ rw stop (inl refl)
          | inr free ↦ rw free (elim (Option-cases (net.gethostbyname host)) [
            | inl unknown ↦ rw unknown (inl refl)
            | inr (addr, known) ↦ rw known (inr (host, e, free, refl))
          ])
        ]
