-- ===== src/Tests/Utils.antt =====
-- utils.c
use proxy.Base.{
  ℕ, ◌≡◌, refl, zero, suc, some, List, [], ◌∷◌, ◌++◌, arith, bytes, length, take, replicate,
}
use proxy.CString.Laws.{Lacks}
use proxy.Base.Int.{pos, negsuc}
use proxy.CString.{strstr, starts_with, strncpy}
use proxy.Sys.{ok, interrupted, failed, World, done, delivered}
use proxy.Utils.{
  write_all_to_socket, read_all_from_socket, parse_host, copy_hostname, copy_port, crlf,
}
use proxy.Utils.Write.{Ends, write_all_to_socket-take, write_all_to_socket-all}
use proxy.Utils.Host.{padded, parse_host-request_line}
use proxy.Utils.Host.Inverse.{Parsed, parse_host-Parsed}
use proxy.Tests.Data.{before, host, port, request, hello, empty_world, good}

abbrev slow : World
slow = record empty_world { writes = ok 2 ∷ interrupted ∷ ok 3 ∷ [] }

abbrev broken : World
broken = record empty_world { writes = ok 2 ∷ failed ∷ [] }

write_in_pieces :
    ((write_all_to_socket 4 hello slow).0 ≡ done (pos 5))
    × (delivered 4 (write_all_to_socket 4 hello slow).1.trace ≡ hello)
unfolding write_all_to_socket delivered
write_in_pieces = (refl, refl)

write_fails :
    ((write_all_to_socket 4 hello broken).0 ≡ done (negsuc 0))
    × (delivered 4 (write_all_to_socket 4 hello broken).1.trace ≡ bytes "he")
unfolding write_all_to_socket delivered
write_fails = (refl, refl)

parse_request :
    parse_host request ≡ done (record { hostname = padded 1024 host; port = padded 32 port })
unfolding parse_host copy_hostname copy_port strstr starts_with strncpy
parse_request = refl

write_all_to_socket-take_example :
    let (r, w') = write_all_to_socket 4 hello broken in
    (k : ℕ) × (delivered 4 w'.trace ≡ delivered 4 [] ++ take k hello) × Ends k r
write_all_to_socket-take_example = write_all_to_socket-take 4 hello broken

write_all_to_socket-all_example :
    let (r, w') = write_all_to_socket 4 hello slow in
    (r ≡ done (pos 5)) × (delivered 4 w'.trace ≡ delivered 4 [] ++ hello)
write_all_to_socket-all_example =
    write_all_to_socket-all 4 hello slow (omega arith) (omega arith) (omega arith)

abbrev incoming : World
incoming = record empty_world { reads = ok hello ∷ interrupted ∷ ok (bytes "you") ∷ ok [] ∷ [] }

read_in_pieces : (read_all_from_socket 4 100 incoming).0 ≡ done (pos 8, bytes "helloyou")
unfolding read_all_from_socket
read_in_pieces = refl

parse_host-request_line_example :
    parse_host request ≡ done (record { hostname = padded 1024 host; port = padded 32 port })
parse_host-request_line_example =
    parse_host-request_line before host port crlf good.first (omega arith) (omega arith)
      (omega arith) (omega arith)

parse_host-Parsed_example :
    Parsed request (record { hostname = padded 1024 host; port = padded 32 port })
parse_host-Parsed_example = parse_host-Parsed request parse_request

no_label : strstr ([] ++ bytes "Host: ") (bytes "Host: ") ≡ some (bytes "Host: ")
unfolding strstr starts_with
no_label = refl

Lacks-replicate : (n : ℕ) → Lacks 58 (replicate n 97)
Lacks-replicate zero = tt
Lacks-replicate (suc n) = ((λ e. ground arith), Lacks-replicate n)

abbrev long : List ℕ
long = replicate 1025 97

length-long : length long ≡ 1025
length-long = refl
