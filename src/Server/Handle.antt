-- ===== src/Server/Handle.antt =====
-- `HandleConnection`: whom it contacts, what it answers, and that it closes its descriptors.
use proxy.Base.{
  ℕ, ◌+◌, ◌≡◌, refl, ◌≢◌, ◌⊎◌, inl, inr, List, [], ◌∷◌, arith, ◌==◌, Bool-cases, Option-cases,
}
use proxy.Base.Int.{ℤ, pos, negsuc}
use proxy.Sys.Local.{IsLocal}
use proxy.CString.{array_str}
use proxy.Sys.{
  Reply, ok, interrupted, failed, World, done, ◌>>=◌, resume, deref, read, terminate, contacts,
  connecting, spawned,
}
use proxy.Sys.Frames.{Keeps, contacts-IgnoresIo, resume-world, >>=-Keeps, read-Keeps}
use proxy.SimpleSet.{SimpleSet, IsLawful}
use proxy.Utils.{Net, parse_host, write_all_to_socket, connect_to_server, connected}
use proxy.Utils.Frames.{write_all_to_socket-Keeps}
use proxy.Server.{
  bufsize, relay, forbidden, forbid, tunnel, established, check_blocklist, load, serve, dispatch,
  carry, hang_up, handle_connection, assert_fd,
}
use proxy.Server.Lines.{OnList}
use proxy.Server.Blocklist.{AllStored, check_blocklist_iff}
use proxy.Server.Relay.{relay-Keeps}

pub assert_fd-IsLocal : (z : ℤ) → IsLocal (assert_fd z)
assert_fd-IsLocal (pos fd) = tt
assert_fd-IsLocal (negsuc n) = tt

forbid-contacts : (client_fd : ℕ) → Keeps contacts (forbid client_fd)
unfolding forbid contacts
forbid-contacts client_fd =
    >>=-Keeps contacts (write_all_to_socket client_fd forbidden) _
      (write_all_to_socket-Keeps contacts client_fd (contacts-IgnoresIo client_fd) forbidden)
      (λ z w. refl)

pub carry-contacts : (client_fd dest_fd : ℕ) → Keeps contacts (carry client_fd dest_fd)
unfolding carry hang_up contacts
carry-contacts client_fd dest_fd =
    >>=-Keeps contacts (write_all_to_socket client_fd established) _
      (write_all_to_socket-Keeps contacts client_fd (contacts-IgnoresIo client_fd) established)
      (λ z w. relayed z (record w { trace = spawned client_fd dest_fd ∷ w.trace }))
  where
    relayed :
        (z : ℤ) (w : World)
        → contacts
            (((λ v. relay client_fd dest_fd v.reads v) >>= λ (u : Unit {0}).
                hang_up client_fd dest_fd)
              w).1.trace
          ≡ contacts w.trace
    relayed z w =
        >>=-Keeps contacts (relay client_fd dest_fd w.reads) _
          (relay-Keeps client_fd dest_fd contacts (contacts-IgnoresIo dest_fd) w.reads)
          (λ u v. refl) w

module _ (S : SimpleSet) (net : Net) (blocked_set : S.State) where
  -- The final world has the contacts of the first, or one more that the blocklist lets pass.
  abbrev pub Allowed : World → World → Type 0
  Allowed w w' =
      (contacts w'.trace ≡ contacts w.trace)
      ⊎ ((host : List ℕ) × (contacts w'.trace ≡ host ∷ contacts w.trace)
          × (check_blocklist S blocked_set host ≢ 1))

  tunnel-Allowed :
      (client_fd : ℕ) (hostname port : List ℕ) (w : World)
      → check_blocklist S blocked_set hostname ≢ 1
      → Allowed w (tunnel net client_fd hostname port w).1
  unfolding tunnel connect_to_server contacts
  tunnel-Allowed client_fd hostname port w ne =
      elim (Option-cases (net.getaddrinfo hostname port)) [
        | inl e ↦ rw e (inl refl)
        | inr (addr, e) ↦ rw e (inr (hostname, after addr, ne))
      ]
    where
      after :
          (addr : ℕ)
          → contacts
              (resume
                (assert_fd (connected (net.connects net.socket addr) net.socket))
                (record w { trace = connecting hostname port ∷ w.trace })
                (λ dest_fd. carry client_fd dest_fd)).1.trace
            ≡ hostname ∷ contacts w.trace
      after addr =
          resume-world (λ v. contacts v.trace ≡ hostname ∷ contacts w.trace)
            (assert_fd (connected (net.connects net.socket addr) net.socket)) _ _ refl
            (λ dest_fd. carry-contacts client_fd dest_fd _)

  serve-Allowed :
      (client_fd : ℕ) (request : List ℕ) (w : World)
      → Allowed w (serve S net blocked_set client_fd request w).1
  unfolding serve
  serve-Allowed client_fd request w =
      resume-world (Allowed w) (terminate (bufsize + 1) request) w _ (inl refl) λ text.
        resume-world (Allowed w) (parse_host text) w _ (inl refl) λ inf.
          resume-world (Allowed w) (deref (array_str inf.hostname)) w _ (inl refl) λ hostname.
            resume-world (Allowed w) (deref (array_str inf.port)) w _ (inl refl) λ port.
              elim (Bool-cases (check_blocklist S blocked_set hostname == 1)) [
                | inl e ↦ rw e (inl (forbid-contacts client_fd w))
                | inr e ↦ rw e (tunnel-Allowed client_fd hostname port w (λ q. ground arith))
              ]

  dispatch-Allowed :
      (client_fd : ℕ) (r : Reply (List ℕ)) (w : World)
      → Allowed w (dispatch S net blocked_set client_fd r w).1
  dispatch-Allowed client_fd (ok []) w = inl (forbid-contacts client_fd w)
  dispatch-Allowed client_fd (ok (b ∷ bs)) w = serve-Allowed client_fd (b ∷ bs) w
  dispatch-Allowed client_fd interrupted w = inl (forbid-contacts client_fd w)
  dispatch-Allowed client_fd failed w = inl (forbid-contacts client_fd w)

  handle_connection-Allowed :
      (client_fd : ℕ) (w : World) → Allowed w (handle_connection S net blocked_set client_fd w).1
  unfolding handle_connection
  handle_connection-Allowed client_fd w =
      let same = read-Keeps contacts client_fd (contacts-IgnoresIo client_fd) client_fd w in
      resume-world (Allowed w) (read client_fd w).0 (read client_fd w).1
        (dispatch S net blocked_set client_fd) (inl same)
        (λ r. rw same at (dispatch-Allowed client_fd r (read client_fd w).1))

-- With the blocklist of the file, a connection is made to at most one host, and to none that is on
-- the list, if every `set_add` has stored its key.
pub handle_connection-contacts :
    (S : SimpleSet) (L : IsLawful S) (net : Net) (lines : List (List ℕ)) {s : S.State}
    → load S S.set_init lines ≡ done s
    → AllStored S S.set_init lines
    → (client_fd : ℕ) (w : World)
    → let w' = (handle_connection S net s client_fd w).1 in
      (contacts w'.trace ≡ contacts w.trace)
      ⊎ ((host : List ℕ) × (contacts w'.trace ≡ host ∷ contacts w.trace) × (¬ OnList host lines))
handle_connection-contacts S L net lines {s} h all client_fd w =
    elim (handle_connection-Allowed S net s client_fd w) [
      | inl same ↦ inl same
      | inr (host, new, free) ↦
          inr (host, new, λ on. free ((check_blocklist_iff S L lines host h all).1 on))
    ]
