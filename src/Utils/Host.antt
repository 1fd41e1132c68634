-- ===== src/Utils/Host.antt =====
-- What `parseHost` reads from a request, and when.
pub mod Inverse
use proxy.Base.{
  ℕ, ◌-◌, ◌≤◌, ◌<◌, ◌≡◌, ap, sym, subst, ◌∙◌, some, List, [], ◌∷◌, ◌++◌, append_assoc, arith, leb,
  false, bytes, length, length-append, drop, replicate,
}
use proxy.CString.{strstr, strncpy, ptr_diff}
use proxy.CString.Laws.{
  Lacks, strstr-append, strstr-Lacks, strstr_split, strstr_byte_split, strncpy_fits, strncpy_bound,
}
use proxy.Sys.{done, undefined, deref, assert_found}
use proxy.Sys.Laws.{and_then-done, deref-done, assert_found-done, done-injective}
use proxy.Utils.{HostInfo, crlf, copy_port, copy_hostname, parse_host}

-- The array of `size` bytes that holds a text.
abbrev pub padded : ℕ → List ℕ → List ℕ
padded size s = s ++ replicate (size - length s) 0

pub ptr_diff_append : (s t : List ℕ) → ptr_diff t (s ++ t) ≡ length s
ptr_diff_append s t = omega (arith, length-append s t)

-- A request whose first "Host: " is followed by a host name, a colon, a port and a line end.
abbrev pub request_line : List ℕ → List ℕ → List ℕ → List ℕ → List ℕ
request_line before host port rest =
    before ++ (bytes "Host: " ++ (host ++ ((58 ∷ []) ++ (port ++ (crlf ++ rest)))))

pub strncpy-padded :
    (size : ℕ) (s t : List ℕ)
    → length s ≤ size
    → strncpy size (s ++ t) (ptr_diff t (s ++ t)) ≡ some (padded size s)
strncpy-padded size s t fits = rw (ptr_diff_append s t) (strncpy_fits size s t fits)

-- One pass through each part, from what `strstr` and `strncpy` give.
copy_port_found :
    (hostname port_start : List ℕ) {end port : List ℕ}
    → strstr port_start crlf ≡ some end
    → strncpy 32 port_start (ptr_diff end port_start) ≡ some port
    → copy_port hostname port_start ≡ done (record { hostname = hostname; port = port })
unfolding copy_port
copy_port_found hostname port_start found copy = rw found (rw copy)

copy_hostname_found :
    (host_start : List ℕ) {colon hostname : List ℕ}
    → strstr host_start (bytes ":") ≡ some colon
    → strncpy 1024 host_start (ptr_diff colon host_start) ≡ some hostname
    → copy_hostname host_start ≡ copy_port hostname (drop 1 colon)
unfolding copy_hostname
copy_hostname_found host_start found copy = rw found (rw copy)

module _ (before host port rest : List ℕ) where
  -- If the first "Host: " is the one after `before`, the name has no colon and the port no carriage
  -- return, and both fit into their arrays, then `parseHost` copies the two.
  pub parse_host-request_line :
      strstr (before ++ bytes "Host: ") (bytes "Host: ") ≡ some (bytes "Host: ")
      → Lacks 58 host
      → Lacks 13 port
      → length host ≤ 1024
      → length port ≤ 32
      → parse_host (request_line before host port rest)
        ≡ done (record { hostname = padded 1024 host; port = padded 32 port })
  unfolding parse_host
  parse_host-request_line first no_colon no_end fits fits' =
      let after_host = host ++ ((58 ∷ []) ++ (port ++ (crlf ++ rest))) in
      let found : strstr (request_line before host port rest) (bytes "Host: ")
          ≡ some (bytes "Host: " ++ after_host) =
        ap (λ s. strstr s (bytes "Host: ")) (sym (append_assoc before (bytes "Host: ") after_host))
        ∙ strstr-append (before ++ bytes "Host: ") (bytes "Host: ") after_host first in
      rw found (
        copy_hostname_found after_host (strstr-Lacks 58 [] host (port ++ (crlf ++ rest)) no_colon)
          (strncpy-padded 1024 host ((58 ∷ []) ++ (port ++ (crlf ++ rest))) fits)
        ∙ copy_port_found (padded 1024 host) (port ++ (crlf ++ rest))
            (strstr-Lacks 13 (10 ∷ []) port rest no_end)
            (strncpy-padded 32 port (crlf ++ rest) fits'))

-- If the first "Host: " is the one after `before` and the name after it has no colon and more
-- than 1024 bytes before its colon, then `parseHost` writes past its array.
pub parse_host-overflow :
    (before host t : List ℕ)
    → strstr (before ++ bytes "Host: ") (bytes "Host: ") ≡ some (bytes "Host: ")
    → Lacks 58 host
    → 1024 < length host
    → parse_host (before ++ (bytes "Host: " ++ (host ++ ((58 ∷ []) ++ t)))) ≡ undefined
unfolding parse_host copy_hostname strncpy
parse_host-overflow before host t first no_colon long =
    let after_label = host ++ ((58 ∷ []) ++ t) in
    let found : strstr (before ++ (bytes "Host: " ++ after_label)) (bytes "Host: ")
        ≡ some (bytes "Host: " ++ after_label) =
      ap (λ s. strstr s (bytes "Host: ")) (sym (append_assoc before (bytes "Host: ") after_label))
      ∙ strstr-append (before ++ bytes "Host: ") (bytes "Host: ") after_label first in
    let size : leb (ptr_diff (58 ∷ t) after_label) 1024 ≡ false =
      ground (arith, ptr_diff_append host (58 ∷ t)) in
    rw found (rw (strstr-Lacks 58 [] host t no_colon) (rw size))
