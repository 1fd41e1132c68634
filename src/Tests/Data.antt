-- ===== src/Tests/Data.antt =====
-- A client, a network and a block list that the tests share.
use proxy.Base.{ℕ, refl, true, List, [], ◌∷◌, ◌++◌, arith, bytes, some}
use proxy.Base.Int.{pos}
use proxy.CString.{strstr, starts_with}
use proxy.Sys.{World}
use proxy.Utils.{Net, crlf}
use proxy.Utils.Host.{request_line}
use proxy.Server.Requests.{GoodRequest}

abbrev pub before : List ℕ
before = bytes "CONNECT b.c:443" ++ crlf

abbrev pub host : List ℕ
host = bytes "b.c"

abbrev pub port : List ℕ
port = bytes "443"

abbrev pub request : List ℕ
request = request_line before host port crlf

-- A message without a Host line, one without a colon in it, and a text after the connection.
abbrev pub hello : List ℕ
hello = bytes "hello"

abbrev pub net : Net
net = record { getaddrinfo = λ h p. some 7; socket = pos 5; connects = λ fd addr. true }

-- Lines of blocked_list.txt.
abbrev pub lines : List (List ℕ)
lines = (bytes "b.c" ++ (10 ∷ [])) ∷ (bytes "d.e" ++ (10 ∷ [])) ∷ []

abbrev pub empty_world : World
empty_world = record { reads = []; writes = []; trace = [] }

pub good : GoodRequest before host port crlf
unfolding strstr starts_with
good = record {
  first = refl;
  no_colon = omega arith;
  no_return = omega arith;
  host_fits = omega arith;
  port_fits = omega arith;
  no_nul = omega arith;
  read_fits = omega arith;
}
