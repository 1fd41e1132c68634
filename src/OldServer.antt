-- ===== src/OldServer.antt =====
-- old_server.c: the server that fetches one page through an openssl child process.
pub mod Command
pub mod Answer
pub mod Exchange
pub mod Pipes
use proxy.Base.{
  ℕ, zero, suc, ◌+◌, ◌-◌, ◌*◌, Bool, true, false, Option, none, some, List, [], ◌∷◌, ◌++◌, bytes,
}
use proxy.Base.{if◌then◌else◌, length, take, drop, ltb, leb}
use proxy.CString.{c_str, array_str, strstr, ptr_diff}
use proxy.Sys.{
  Reply, ok, interrupted, failed, World, Outcome, done, blocked, aborted, undefined, exited,
}
use proxy.Sys.{
  M, ◌>>=◌, ◌>>◌, return, resume, lift, deref, and_then, emit, take_reply, read, write, terminate,
}
use proxy.Sys.{Event, shut_down, closed}
use proxy.Utils.{crlf}
use proxy.Server.Main.{assert_true, or_exit}
use proxy.Redirect.{step_back}

-- The size of `buffer` in `makeReq` and in `main`, and of `writeback`.
abbrev pub buffer_size : ℕ
buffer_size = 1024 * 1024

-- The command that the child runs: the text from "Host: " to the line's end, as it is.
unfoldable pub ssl_command : List ℕ → Outcome (List ℕ)
ssl_command client_header = and_then (deref (strstr client_header (bytes "Host: "))) λ label.
    let host = drop 6 label in
    and_then (deref (strstr host crlf)) λ host_end.
      let command = bytes "openssl s_client -connect " ++ take (ptr_diff host_end host) host in
      if ltb (length command) 1024 then done command else undefined

abbrev pub verified : List ℕ
verified = bytes "Verify return code: 0 (ok)"

abbrev pub is_found : Option (List ℕ) → Bool
is_found none = false
is_found (some suffix) = true

-- `strstr(buffer, ...)` where only the bytes `buffer` of the array are set: past them it reads what
-- the stack holds.
abbrev pub scan_array : List ℕ → List ℕ → Outcome Bool
scan_array buffer needle = elim (array_str buffer) [
  | some text ↦ done (is_found (strstr text needle))
  | none ↦ if is_found (strstr buffer needle) then done true else undefined
]

-- `read` puts `bs` into the array at `num_read`.
abbrev pub put_at : ℕ → List ℕ → List ℕ → List ℕ
put_at num_read bs buffer = take num_read buffer ++ (bs ++ drop (num_read + length bs) buffer)

-- The end of a round of the first loop, with the rounds that follow.
abbrev pub end_verify : List ℕ → List (Reply (List ℕ)) → M (Unit {0}) → M (Unit {0})
end_verify buffer rs rest w =
    resume (scan_array buffer verified) w
      λ found. if found then (λ v. (done tt, record v { reads = rs })) else rest

module _ (from_ssl : ℕ) where
  -- The first loop of `makeReq`, with the bytes of the array that are set, at `num_read`. Each
  -- read may fill the whole size of the array, wherever it starts, and a failed one adds -1.
  unfoldable pub verify_from : List ℕ → ℕ → List (Reply (List ℕ)) → M (Unit {0})
  verify_from buffer num_read [] w = (blocked, record w { reads = [] })
  verify_from buffer num_read (ok bs ∷ rs) w =
      let rest = verify_from (put_at num_read bs buffer) (num_read + length bs) rs in
      (take_reply from_ssl (ok bs) >>= λ r.
      (if leb (num_read + length bs) buffer_size
        then end_verify (put_at num_read bs buffer) rs rest
        else lift undefined))
        w
  verify_from buffer num_read (interrupted ∷ rs) w =
      step_back num_read (λ k. end_verify buffer rs (verify_from buffer k rs)) w
  verify_from buffer num_read (failed ∷ rs) w =
      step_back num_read (λ k. end_verify buffer rs (verify_from buffer k rs)) w

abbrev pub ok_line : List ℕ
ok_line = bytes "200 OK" ++ crlf

abbrev pub session_end : List ℕ
session_end = bytes "---" ++ ((10 ∷ []) ++ bytes "Post-Handshake New Session")

abbrev pub find_end : List ℕ → Option (List ℕ) → Option (List ℕ × List ℕ)
find_end res_start none = none
find_end res_start (some res_end) = some (res_start, res_end)

abbrev pub find_start : Option (List ℕ) → Option (List ℕ × List ℕ)
find_start none = none
find_start (some res_start) = find_end res_start (strstr res_start session_end)

-- `res_start` and `res_end`, once the text has both.
unfoldable pub find_answer : List ℕ → Option (List ℕ × List ℕ)
find_answer text = find_start (strstr text ok_line)

-- The end of a round of the second loop: `buffer[numRead] = 0`, and the search.
abbrev pub end_collect : List ℕ → List (Reply (List ℕ)) → M (List ℕ × List ℕ) → M (List ℕ × List ℕ)
end_collect got rs rest w =
    if ltb (length got) buffer_size
    then elim (find_answer (c_str got)) [
      | none ↦ rest w
      | some p ↦ (done p, record w { reads = rs })
    ]
    else (undefined, w)

module _ (from_ssl : ℕ) where
  -- The second loop of `makeReq`, with the bytes before `numRead`.
  unfoldable pub collect_from : List ℕ → List (Reply (List ℕ)) → M (List ℕ × List ℕ)
  collect_from got [] w = (blocked, record w { reads = [] })
  collect_from got (ok bs ∷ rs) w =
      let rest = collect_from (got ++ bs) rs in
      (take_reply from_ssl (ok bs) >>= λ r. end_collect (got ++ bs) rs rest) w
  collect_from got (interrupted ∷ rs) w =
      step_back (length got) (λ k. end_collect (take k got) rs (collect_from (take k got) rs)) w
  collect_from got (failed ∷ rs) w =
      step_back (length got) (λ k. end_collect (take k got) rs (collect_from (take k got) rs)) w

-- What `makeReq` copies to `writeback`. The assertion on `res_start` holds also for NULL + 4, and a
-- negative `length` is a size past all arrays.
unfoldable pub cut_body : List ℕ × List ℕ → Outcome (List ℕ)
cut_body (res_start, res_end) = and_then (deref (strstr res_start (crlf ++ crlf))) λ blank.
    let body = drop 4 blank in
    if leb (length res_end) (length body)
    then done (take (ptr_diff res_end body) body)
    else undefined

-- The first line of the header, with its end, in an array of 1024.
unfoldable pub first_line : List ℕ → Outcome (List ℕ)
first_line client_header = and_then (deref (strstr client_header crlf)) λ req_end.
    let req = take (ptr_diff req_end client_header + 2) client_header in
    if ltb (length req) 1024 then done req else undefined

-- The two pipes, and whether the child ends by itself.
pub record Child : Type 0 where
  pub to_read : ℕ
  pub to_write : ℕ
  pub from_read : ℕ
  pub from_write : ℕ
  pub ends : Bool

abbrev pub wait_for : Bool → Outcome (Unit {0})
wait_for true = done tt
wait_for false = blocked

-- `makeReq` in the parent, with the body that it writes back.
unfoldable pub make_req : Child → List ℕ → M (List ℕ)
make_req child client_header = do
  (λ w. verify_from child.from_read [] 0 w.reads w)
  req ← lift (first_line client_header)
  r ← write child.to_write req
  p ← (λ w. collect_from child.from_read [] w.reads w)
  body ← lift (cut_body p)
  lift (wait_for child.ends)
  emit (closed child.from_write)
  emit (closed child.from_read)
  emit (closed child.to_read)
  emit (closed child.to_write)
  return body

-- What the calls of the start give: whether `getaddrinfo`, `bind` and `listen` succeed.
pub record Listener : Type 0 where
  pub address : Bool
  pub binds : Bool
  pub listens : Bool

-- The request as text. A failed read writes in front of the array.
unfoldable pub request_text : Reply (List ℕ) → Outcome (List ℕ)
request_text (ok bs) = terminate buffer_size bs
request_text interrupted = undefined
request_text failed = undefined

-- `main`, with the listening socket and the client that `accept` returns.
unfoldable pub main : Listener → Child → ℕ → ℕ → M (Unit {0})
main host child sock_fd client_fd = do
  lift (assert_true host.address)
  lift (or_exit host.binds)
  lift (or_exit host.listens)
  r ← read client_fd
  client_header ← lift (request_text r)
  body ← make_req child client_header
  r' ← write client_fd body
  emit (shut_down sock_fd)
  emit (closed sock_fd)
  lift (exited 0)
