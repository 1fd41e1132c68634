-- ===== src/Utils/Host/Inverse.antt =====
-- What a request is made of that `parseHost` reads without an error.
use proxy.Base.{ℕ, ◌≤◌, ◌≡◌, ap, sym, subst, ◌∙◌, some, List, [], ◌∷◌, ◌++◌, bytes, length, drop}
use proxy.CString.{strstr, strncpy, ptr_diff}
use proxy.CString.Laws.{Lacks, strstr_split, strstr_byte_split, strncpy_fits, strncpy_bound}
use proxy.Sys.{done, deref, assert_found}
use proxy.Sys.Laws.{and_then-done, deref-done, assert_found-done, done-injective}
use proxy.Utils.{HostInfo, crlf, copy_port, copy_hostname, parse_host}
use proxy.Utils.Host.{padded, request_line, ptr_diff_append}

-- How a request that `parseHost` reads is made up.
pub record Parsed (request : List ℕ) (inf : HostInfo) : Type 0 where
  pub before : List ℕ
  pub host : List ℕ
  pub port : List ℕ
  pub rest : List ℕ
  pub whole : request ≡ request_line before host port rest
  pub no_colon : Lacks 58 host
  pub host_fits : length host ≤ 1024
  pub port_fits : length port ≤ 32
  pub host_array : inf.hostname ≡ padded 1024 host
  pub port_array : inf.port ≡ padded 32 port

-- A `strncpy` of the text before a pointer into the same text.
copied :
    (size : ℕ) (s t : List ℕ) {a : List ℕ}
    → strncpy size (s ++ t) (ptr_diff t (s ++ t)) ≡ some a
    → (length s ≤ size) × (a ≡ padded size s)
copied size s t {a} h =
    let copy : strncpy size (s ++ t) (length s) ≡ some a = rw (← ptr_diff_append s t) h in
    let fits : length s ≤ size = strncpy_bound size (s ++ t) (length s) copy in
    (fits, unwrap (sym copy ∙ strncpy_fits size s t fits))
  where
    unwrap : some a ≡ some (padded size s) → a ≡ padded size s
    unwrap e = cc

-- The port's part of a request.
record ParsedPort (port_start array : List ℕ) : Type 0 where
  port : List ℕ
  rest : List ℕ
  line : port_start ≡ port ++ (crlf ++ rest)
  fits : length port ≤ 32
  padding : array ≡ padded 32 port

parsed_port :
    (port_start : List ℕ) {end array : List ℕ}
    → strstr port_start crlf ≡ some end
    → strncpy 32 port_start (ptr_diff end port_start) ≡ some array
    → ParsedPort port_start array
parsed_port port_start {end} {array} found copy = go (strstr_split port_start crlf found)
  where
    go :
        (pre : List ℕ) × (t : List ℕ) × (port_start ≡ pre ++ end) × (end ≡ crlf ++ t)
        → ParsedPort port_start array
    go (pre, t, p, q) =
        let (fits, same) = copied 32 pre end (rw (← p) copy) in
        record {
          port = pre;
          rest = t;
          line = p ∙ ap (λ s. pre ++ s) q;
          fits = fits;
          padding = same;
        }

copy_port-ParsedPort :
    (hostname port_start : List ℕ) {inf : HostInfo}
    → copy_port hostname port_start ≡ done inf
    → (inf.hostname ≡ hostname) × ParsedPort port_start inf.port
unfolding copy_port
copy_port-ParsedPort hostname port_start {inf} h =
    let (end, found, k) = and_then-done (deref (strstr port_start crlf)) _ h in
    let (array, copy, k') =
      and_then-done (deref (strncpy 32 port_start (ptr_diff end port_start))) _ k in
    let same = done-injective k' in
    (
      ap (λ (i : HostInfo). i.hostname) (sym same),
      subst (λ (i : HostInfo). ParsedPort port_start i.port) same
          (parsed_port port_start (deref-done _ found) (deref-done _ copy)),
    )

-- The part from the host on.
record ParsedHost (host_start : List ℕ) (inf : HostInfo) : Type 0 where
  host : List ℕ
  port_start : List ℕ
  line : host_start ≡ host ++ ((58 ∷ []) ++ port_start)
  no_colon : Lacks 58 host
  fits : length host ≤ 1024
  padding : inf.hostname ≡ padded 1024 host
  port_part : ParsedPort port_start inf.port

parsed_host :
    (host_start : List ℕ) {colon array : List ℕ} {inf : HostInfo}
    → strstr host_start (bytes ":") ≡ some colon
    → strncpy 1024 host_start (ptr_diff colon host_start) ≡ some array
    → copy_port array (drop 1 colon) ≡ done inf
    → ParsedHost host_start inf
parsed_host host_start {colon} {array} {inf} found copy h =
    go (strstr_byte_split host_start 58 found)
  where
    go :
        (pre : List ℕ) × (t : List ℕ) × (host_start ≡ pre ++ colon)
          × (colon ≡ 58 ∷ t)
          × Lacks 58 pre
        → ParsedHost host_start inf
    go (pre, t, p, q, l) =
        let (fits, same) = copied 1024 pre colon (rw (← p) copy) in
        let rest : copy_port array t ≡ done inf = rw q at h in
        let (name, port) = copy_port-ParsedPort array t rest in
        record {
          host = pre;
          port_start = t;
          line = p ∙ ap (λ s. pre ++ s) q;
          no_colon = l;
          fits = fits;
          padding = name ∙ same;
          port_part = port;
        }

copy_hostname-ParsedHost :
    (host_start : List ℕ) {inf : HostInfo}
    → copy_hostname host_start ≡ done inf
    → ParsedHost host_start inf
unfolding copy_hostname
copy_hostname-ParsedHost host_start {inf} h =
    let (colon, found, k) = and_then-done (assert_found (strstr host_start (bytes ":"))) _ h in
    let (array, copy, k') =
      and_then-done (deref (strncpy 1024 host_start (ptr_diff colon host_start))) _ k in
    parsed_host host_start (assert_found-done _ found) (deref-done _ copy) k'

-- What `parseHost` returns was cut from the request: the host runs from "Host: " to the first colon
-- after it and the port from there to a line end, and both stay within their arrays.
pub parse_host-Parsed :
    (request : List ℕ) {inf : HostInfo} → parse_host request ≡ done inf → Parsed request inf
unfolding parse_host
parse_host-Parsed request {inf} h =
    let (host_line, found, k) = and_then-done (deref (strstr request (bytes "Host: "))) _ h in
    go (strstr_split request (bytes "Host: ") (deref-done _ found)) k
  where
    go :
        {line : List ℕ}
        → (pre : List ℕ) × (t : List ℕ) × (request ≡ pre ++ line) × (line ≡ bytes "Host: " ++ t)
        → copy_hostname (drop 6 line) ≡ done inf
        → Parsed request inf
    go (pre, t, p, q) k =
        let after : copy_hostname t ≡ done inf = rw q at k in
        let r = copy_hostname-ParsedHost t after in
        record {
          before = pre;
          host = r.host;
          port = r.port_part.port;
          rest = r.port_part.rest;
          whole =
              p
              ∙ ap (λ s. pre ++ s)
                  (q
                    ∙ ap (λ s. bytes "Host: " ++ s)
                        (r.line ∙ ap (λ s. r.host ++ ((58 ∷ []) ++ s)) r.port_part.line));
          no_colon = r.no_colon;
          host_fits = r.fits;
          port_fits = r.port_part.fits;
          host_array = r.padding;
          port_array = r.port_part.padding;
        }
