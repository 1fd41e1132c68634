-- ===== src/Server/Protocol/Refines.antt =====
-- A thread of server.c keeps to the protocol.
use proxy.Base.{
  ℕ, ◌≡◌, ◌==◌, refl, ap, ◌∙◌, ◌⊎◌, inl, inr, some, List, [], ◌∷◌, arith, Bool-cases, ◌+◌,
  Option-cases,
}
use proxy.Sys.{
  ok, Event, sent, connecting, spawned, shut_down, World, Outcome, done, blocked, aborted,
  undefined, exited, M, resume, terminate, deref,
}
use proxy.Server.{
  handle_connection, bufsize, forbid, forbidden, established, carry, hang_up, relay, tunnel,
  assert_fd, serve, dispatch, check_blocklist,
}
use proxy.Server.Protocol.{
  Phase, idle, asked, refusing, refused, reaching, joined, ending, closed_client, last, over, phase,
  on, advance, then_advance,
}
use proxy.CString.{array_str}
use proxy.Server.Relay.{relay-Preserves}
use proxy.SimpleSet.{SimpleSet}
use proxy.Utils.{Net, parse_host, connected, connect_to_server, write_all_to_socket}
use proxy.Utils.Frames.{write_all_to_socket-Preserves}
use proxy.Sys.Laws.{resume-read}

on_same : (n : ℕ) (p : Phase) → on n n p ≡ some p
on_same n p = ground arith

pub phase_nil : (client : ℕ) → phase client [] ≡ some idle
unfolding phase
phase_nil client = refl

stepped :
    (client : ℕ) (es : List Event) (e : Event) {p q : Phase}
    → phase client es ≡ some p
    → advance client p e ≡ some q
    → phase client (e ∷ es) ≡ some q
unfolding phase
stepped client es e h step = ap (λ o. then_advance client o e) h ∙ step

-- The trace is allowed, and if the code has ended, then in the last phase.
abbrev pub Follows : ℕ → Outcome (Unit {0}) × World → Type 0
Follows client (r, w) = (p : Phase) × (phase client w.trace ≡ some p) × ((r ≡ done tt) → p ≡ over)

resume-Follows :
    {A : Type 0} (client : ℕ) (r : Outcome A) (w : World) (f : A → M (Unit {0})) {p : Phase}
    → phase client w.trace ≡ some p
    → ((a : A) → r ≡ done a → Follows client (f a w))
    → Follows client (resume r w f)
resume-Follows client (done a) w f h go = go a refl
resume-Follows client blocked w f {p} h go = (p, h, λ e. cc)
resume-Follows client aborted w f {p} h go = (p, h, λ e. cc)
resume-Follows client undefined w f {p} h go = (p, h, λ e. cc)
resume-Follows client (exited n) w f {p} h go = (p, h, λ e. cc)

-- The phases in which the thread may turn its client away.
abbrev Refusable : ℕ → List Event → Type 0
Refusable client es =
    (phase client es ≡ some idle)
    ⊎ (phase client es ≡ some asked)
    ⊎ (phase client es ≡ some refusing)

Refusable-sent :
    (client : ℕ) (bs : List ℕ) (es : List Event)
    → Refusable client es
    → Refusable client (sent client bs ∷ es)
Refusable-sent client bs es (inl h) = inr (inr (stepped _ _ _ h (on_same client refusing)))
Refusable-sent client bs es (inr (inl h)) = inr (inr (stepped _ _ _ h (on_same client refusing)))
Refusable-sent client bs es (inr (inr h)) = inr (inr (stepped _ _ _ h (on_same client refusing)))

Refusable-refused :
    (client : ℕ) (es : List Event)
    → Refusable client es
    → phase client (shut_down client ∷ es) ≡ some refused
Refusable-refused client es (inl h) = stepped _ _ _ h (on_same client refused)
Refusable-refused client es (inr (inl h)) = stepped _ _ _ h (on_same client refused)
Refusable-refused client es (inr (inr h)) = stepped _ _ _ h (on_same client refused)

Refusable-phase :
    (client : ℕ) (es : List Event) → Refusable client es → (p : Phase) × (phase client es ≡ some p)
Refusable-phase client es (inl h) = (idle, h)
Refusable-phase client es (inr (inl h)) = (asked, h)
Refusable-phase client es (inr (inr h)) = (refusing, h)

forbid-Follows :
    (client : ℕ) (w : World) → Refusable client w.trace → Follows client (forbid client w)
unfolding forbid
forbid-Follows client w may =
    let (r, w₁) = write_all_to_socket client forbidden w in
    let may₁ =
      write_all_to_socket-Preserves (Refusable client) client (Refusable-sent client) forbidden w
        may in
    resume-Follows client r w₁ _ (Refusable-phase client w₁.trace may₁).1 λ z _. (
      over,
      stepped _ _ _ (Refusable-refused client w₁.trace may₁) (on_same client over),
      λ e. refl,
    )

carry-Follows :
    (client dest_fd : ℕ) (w : World)
    → phase client w.trace ≡ some reaching
    → Follows client (carry client dest_fd w)
unfolding carry hang_up
carry-Follows client dest_fd w h =
    let (r, w₁) = write_all_to_socket client established w in
    let h₁ : phase client w₁.trace ≡ some reaching =
      write_all_to_socket-Preserves (λ es. phase client es ≡ some reaching) client
        (λ bs es p. stepped _ _ _ p (on_same client reaching)) established w h in
    resume-Follows client r w₁ _ h₁ λ z _.
      let w₂ : World = record w₁ { trace = spawned client dest_fd ∷ w₁.trace } in
      let (r₃, w₃) = relay client dest_fd w₁.reads w₂ in
      let h₃ : phase client w₃.trace ≡ some (joined dest_fd) =
        relay-Preserves client dest_fd (λ es. phase client es ≡ some (joined dest_fd))
          (λ bs es p. stepped _ _ _ p (on_same client (joined dest_fd)))
          (λ bs es p. stepped _ _ _ p (on_same dest_fd (joined dest_fd))) w₁.reads w₂
          (stepped _ _ _ h₁ (on_same client (joined dest_fd))) in
      resume-Follows client r₃ w₃ _ h₃ λ u _. (
        over,
        stepped _ _ _
            (stepped _ _ _
              (stepped _ _ _ (stepped _ _ _ h₃ (on_same client (ending dest_fd)))
                (on_same client (closed_client dest_fd)))
              (on_same dest_fd (last dest_fd)))
            (on_same dest_fd over),
        λ e. refl,
      )

tunnel-Follows :
    (net : Net) (client : ℕ) (hostname port : List ℕ) (w : World)
    → phase client w.trace ≡ some asked
    → Follows client (tunnel net client hostname port w)
unfolding tunnel connect_to_server
tunnel-Follows net client hostname port w h = elim (Option-cases (net.getaddrinfo hostname port)) [
  | inl unknown ↦ rw unknown (asked, h, λ e. cc)
  | inr (addr, known) ↦ rw known (
      let w₁ : World = record w { trace = connecting hostname port ∷ w.trace } in
      let h₁ : phase client w₁.trace ≡ some reaching = stepped _ _ _ h refl in
      resume-Follows client (assert_fd (connected (net.connects net.socket addr) net.socket)) w₁ _
        h₁ λ dest_fd _. carry-Follows client dest_fd w₁ h₁)
]

module _ (S : SimpleSet) (net : Net) (blocked_set : S.State) (client : ℕ) where
  serve-Follows :
      (request : List ℕ) (w : World)
      → phase client w.trace ≡ some asked
      → Follows client (serve S net blocked_set client request w)
  unfolding serve
  serve-Follows request w h =
      resume-Follows client (terminate (bufsize + 1) request) w _ h λ text _.
        resume-Follows client (parse_host text) w _ h λ inf _.
          resume-Follows client (deref (array_str inf.hostname)) w _ h λ hostname _.
            resume-Follows client (deref (array_str inf.port)) w _ h λ port _.
              elim (Bool-cases (check_blocklist S blocked_set hostname == 1)) [
                | inl e ↦ rw e (forbid-Follows client w (inr (inl h)))
                | inr e ↦ rw e (tunnel-Follows net client hostname port w h)
              ]

  dispatch_bytes-Follows :
      (bs : List ℕ) (w : World)
      → phase client w.trace ≡ some asked
      → Follows client (dispatch S net blocked_set client (ok bs) w)
  dispatch_bytes-Follows [] w h = forbid-Follows client w (inr (inl h))
  dispatch_bytes-Follows (b ∷ bs) w h = serve-Follows (b ∷ bs) w h

  -- Whatever the client sends and the kernel and the network answer, the events of a thread that
  -- starts with an empty trace keep to the protocol, and a thread that ends has come to its last
  -- phase.
  pub handle_connection-Follows :
      (w : World) → w.trace ≡ [] → Follows client (handle_connection S net blocked_set client w)
  unfolding handle_connection
  handle_connection-Follows w fresh =
      let start : phase client w.trace ≡ some idle = ap (phase client) fresh ∙ phase_nil client in
      resume-read (Follows client) client w (dispatch S net blocked_set client)
        (λ v e. (idle, ap (phase client) e ∙ start, λ h. cc))
        (λ bs v e.
          dispatch_bytes-Follows bs v
            (ap (phase client) e ∙ stepped _ _ _ start (on_same client asked)))
        (λ v e.
          let again : phase client v.trace ≡ some idle = ap (phase client) e ∙ start in
          (forbid-Follows client v (inl again), forbid-Follows client v (inl again)))
