-- ===== src/Utils.antt =====
-- utils.c: the socket loops, the connection to the destination, and the parser of the Host line.
pub mod Write
pub mod Read
pub mod Host
pub mod Frames
pub mod Ends
pub mod Local
use proxy.Base.{ℕ, ◌+◌, ◌==◌, Bool, true, false, Option, List, [], ◌∷◌, ◌++◌, bytes}
use proxy.Base.{if◌then◌else◌, ltb, length, drop}
use proxy.Base.Int.{ℤ, pos, negsuc}
use proxy.CString.{strstr, strncpy, ptr_diff}
use proxy.Sys.{
  Reply, ok, interrupted, failed, World, Outcome, done, blocked, aborted, undefined, exited,
}
use proxy.Sys.{
  M, ◌>>=◌, ◌>>◌, return, resume, lift, deref, assert_found, and_then, emit, take_reply, give_reply,
}
use proxy.Sys.{Event, connecting}

-- The end of `write_all_to_socket`, with the replies that are left.
abbrev pub end_write : ℤ → List (Reply ℕ) → M ℤ
end_write z rs w = (done z, record w { writes = rs })

module _ (socket : ℕ) (buffer : List ℕ) where
  -- The loop, at `attempt`. `count` is the length of `buffer`.
  unfoldable pub write_from : ℕ → List (Reply ℕ) → M ℤ
  write_from attempt [] w =
      if ltb attempt (length buffer)
      then (blocked, record w { writes = [] })
      else end_write (pos attempt) [] w
  write_from attempt (r ∷ rs) w =
      if ltb attempt (length buffer)
      then elim r [
        | ok n ↦
            if n == 0
            then end_write (pos attempt) rs w
            else (give_reply socket (drop attempt buffer) (ok n) >>= λ _.
                  write_from (attempt + n) rs)
                w
        | interrupted ↦ write_from attempt rs w
        | failed ↦ end_write (negsuc 0) rs w
      ]
      else end_write (pos attempt) (r ∷ rs) w

  unfoldable pub write_all_to_socket : M ℤ
  unfolding write_from
  write_all_to_socket w = write_from 0 w.writes w

-- The end of `read_all_from_socket`: the result, and what the buffer holds.
abbrev pub end_read : ℤ → List ℕ → List (Reply (List ℕ)) → M (ℤ × List ℕ)
end_read z buffer rs w = (done (z, buffer), record w { reads = rs })

module _ (socket : ℕ) (count : ℕ) where
  -- The loop, with the bytes read so far: `amountRead` is their number.
  unfoldable pub read_from : List ℕ → List (Reply (List ℕ)) → M (ℤ × List ℕ)
  read_from buffer [] w =
      if ltb (length buffer) count
      then (blocked, record w { reads = [] })
      else end_read (pos (length buffer)) buffer [] w
  read_from buffer (r ∷ rs) w =
      if ltb (length buffer) count
      then elim r [
        | ok bs ↦
            if length bs == 0
            then end_read (pos (length buffer)) buffer rs w
            else (take_reply socket (ok bs) >>= λ _. read_from (buffer ++ bs) rs) w
        | interrupted ↦ read_from buffer rs w
        | failed ↦ end_read (negsuc 0) buffer rs w
      ]
      else end_read (pos (length buffer)) buffer (r ∷ rs) w

  unfoldable pub read_all_from_socket : M (ℤ × List ℕ)
  unfolding read_from
  read_all_from_socket w = read_from [] w.reads w

-- What the network does: `getaddrinfo` of a host and port, `socket`, and whether `connect` succeeds.
pub record Net : Type 0 where
  pub getaddrinfo : List ℕ → List ℕ → Option ℕ
  pub socket : ℤ
  pub connects : ℤ → ℕ → Bool

-- The result after `connect`: -1 if it has failed.
abbrev pub connected : Bool → ℤ → ℤ
connected false server_socket = negsuc 0
connected true server_socket = server_socket

-- `result` is read before `s` is checked, so a failed `getaddrinfo` leaves it uninitialised there.
unfoldable pub connect_to_server : Net → List ℕ → List ℕ → M ℤ
connect_to_server net host port = do
  addr ← lift (deref (net.getaddrinfo host port))
  emit (connecting host port)
  return (connected (net.connects net.socket addr) net.socket)

-- `hostinfo`, its two arrays.
pub record HostInfo : Type 0 where
  pub hostname : List ℕ
  pub port : List ℕ

-- The end of a header line.
abbrev pub crlf : List ℕ
crlf = 13 ∷ 10 ∷ []

-- The port part of `parseHost`, from `portStart`. With `end` NULL, `end - portStart` is undefined,
-- and so is a `strncpy` past the array.
unfoldable pub copy_port : List ℕ → List ℕ → Outcome HostInfo
copy_port hostname port_start = and_then (deref (strstr port_start crlf)) λ end.
    and_then (deref (strncpy 32 port_start (ptr_diff end port_start)))
      λ port. done (record { hostname = hostname; port = port })

-- The part of `parseHost` from `hostStart`.
unfoldable pub copy_hostname : List ℕ → Outcome HostInfo
copy_hostname host_start = and_then (assert_found (strstr host_start (bytes ":"))) λ colon.
    and_then (deref (strncpy 1024 host_start (ptr_diff colon host_start)))
      λ hostname. copy_port hostname (drop 1 colon)

-- `parseHost`. With no "Host: " the second `strstr` reads from a pointer near NULL.
unfoldable pub parse_host : List ℕ → Outcome HostInfo
parse_host request =
    and_then (deref (strstr request (bytes "Host: "))) λ host. copy_hostname (drop 6 host)
