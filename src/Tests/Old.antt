-- ===== src/Tests/Old.antt =====
-- old_server.c and the pipe of Containers/container.c
use proxy.Base.{
  ℕ, ◌≡◌, refl, inl, some, true, List, [], ◌∷◌, ◌++◌, arith, bytes, ◌≢◌, inr, ◌⊎◌, false,
}
use proxy.CString.{c_str, array_str, strstr, starts_with}
use proxy.Sys.{ok, World, done, taken, write}
use proxy.SslRedirect.Forward.{arrive}
use proxy.Utils.{crlf}
use proxy.OldServer.{
  Child, make_req, verify_from, collect_from, find_answer, cut_body, first_line, scan_array,
  verified,
}
use proxy.OldServer.Answer.{Answer}
use proxy.OldServer.Pipes.{
  Table, other, IsFresh, opened, redirect, to_ssl_read, to_ssl_write, from_ssl_read, from_ssl_write,
  redirect-ends,
}
use proxy.OldServer.Exchange.{make_req-Answer}
use proxy.Container.Pipe.{
  Sync, piped, clone, link, close, go_on, Reach, here, next, Among, Linked, at_round, first_waits,
  later_early,
}
use proxy.Tests.Data.{before, host}

starts : strstr (before ++ bytes "Host: ") (bytes "Host: ") ≡ some (bytes "Host: ")
unfolding strstr starts_with
starts = refl

abbrev pages : List (List ℕ)
pages =
    bytes "Verify return code: 0 (ok)"
    ∷ (bytes "HTTP/1.0 200 OK" ++ (crlf ++ crlf))
    ∷ (bytes "hi---" ++ (10 ∷ bytes "Post-Handshake New Session"))
    ∷ []

abbrev header : List ℕ
header = before ++ (bytes "Host: " ++ (host ++ (crlf ++ crlf)))

abbrev openssl : Child
openssl = record { to_read = 6; to_write = 7; from_read = 8; from_write = 9; ends = true }

abbrev fetching : World
fetching = record { reads = arrive pages; writes = ok 17 ∷ []; trace = [] }

fetched : (make_req openssl header fetching).0 ≡ done (bytes "hi")
unfolding make_req verify_from collect_from find_answer cut_body first_line write array_str strstr
    starts_with c_str
fetched = refl

make_req-Answer_example :
    let w' = (make_req openssl header fetching).1 in
    (greeting : List ℕ) × (page : List ℕ) × (taken 8 w'.trace ≡ taken 8 [] ++ (greeting ++ page))
    × (scan_array greeting verified ≡ done true)
    × Answer (c_str page) (bytes "hi")
make_req-Answer_example = make_req-Answer openssl header (bytes "hi") pages fetching refl fetched

abbrev terminal : Table
terminal = λ fd. some (other fd)

openssl-IsFresh : IsFresh openssl
openssl-IsFresh = record {
  to_read_high = omega arith;
  to_write_high = omega arith;
  from_read_high = omega arith;
  from_write_high = omega arith;
  to_ne = λ e. omega arith;
  from_ne = λ e. omega arith;
  read_ne = λ e. omega arith;
  write_ne = λ e. omega arith;
  cross_ne = λ e. omega arith;
  other_ne = λ e. omega arith;
}

redirect-ends_example :
    let parent = opened openssl terminal in
    let child = redirect openssl parent in
    (child 0 ≡ some to_ssl_read)
    × (child 1 ≡ some from_ssl_write)
    × ((fd : ℕ) → child fd ≢ some to_ssl_write)
    × ((fd : ℕ) → child fd ≢ some from_ssl_read)
    × (parent openssl.from_write ≡ some from_ssl_write)
    × (parent openssl.to_write ≡ some to_ssl_write)
redirect-ends_example = redirect-ends openssl openssl-IsFresh terminal (λ fd. inr (fd, refl))

-- Containers/container.c and Containers/test.c
abbrev first_up : Sync
first_up = record (at_round 1) { up = 0 ∷ [] }

first_up-Reach : Reach piped first_up
first_up-Reach =
    next
      (next (next (next here (clone piped refl refl (omega arith))) (link _ refl refl))
        (close _ refl refl))
      (go_on (at_round 1) 0 refl (inl (omega arith)))

first_waits_example : Linked first_up 0 ⊎ ((first_up.running ≡ false) × (first_up.current ≡ 0))
first_waits_example = first_waits first_up-Reach (inl refl)

later_early_example : (s : Sync) × Reach piped s × Among 1 s.up × (¬ Linked s 1)
later_early_example = later_early 0 (omega arith)
