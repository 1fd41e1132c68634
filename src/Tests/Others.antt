-- ===== src/Tests/Others.antt =====
-- The accept loop and the crashes of server.c, ssl-redirect.c and redirect.c.
use proxy.Base.{
  ℕ, ◌≡◌, refl, true, false, some, none, List, [], ◌∷◌, ◌++◌, arith, bytes, str_eq, ◌≢◌, length,
  ◌≤◌, take, replicate, length-append, length-replicate, subst, sym, ◌<◌,
}
use proxy.Base.Int.{pos}
use proxy.CString.{c_str, strstr, starts_with, array_str, strncpy, isspace}
use proxy.Sys.{ok, World, done, exited, contacts, delivered, read, terminate, blocked}
use proxy.SimpleSet.Listed.{listed_set}
use proxy.Utils.{parse_host, copy_hostname, copy_port, write_all_to_socket}
use proxy.Server.{check_blocklist, strip_line, load}
use proxy.Server.Main.{
  Host, start, Loop, fresh, accept_round, read_argument, Reach, here, next, accept, begin,
}
use proxy.SslRedirect
use proxy.SslRedirect.{main, main_connection, forward}
use proxy.SslRedirect.Program.{main-exited}
use proxy.Redirect
use proxy.Redirect.Receiving.{send_req-fits}
use proxy.Redirect.{
  push_entry, load_entries, is_blocked, request_host, scan_host, check_length, parse_req, send_from,
  receive_from, send_req, response_size,
}
use proxy.Redirect.{main_round}
use proxy.SslRedirect.Tunnelling.{main-tunnels}
use proxy.SslRedirect.Forward.{arrive, joined, taken_whole}
use proxy.Server.{established}
use proxy.Utils.{crlf}
use proxy.Redirect.Turned.{Answered, main_round-Answered}
use proxy.Redirect.Turned.Pieces.{page_host}
use proxy.Tests.Data.{host, request, hello, net, lines, empty_world, before, port, good}

-- The accept loop.
abbrev one_served : Loop
one_served = record { client_fd = 4; created = 0; serving = 4 ∷ []; accepted = 4 ∷ [] }

one_served-Reach : Reach fresh one_served
unfolding accept_round read_argument
one_served-Reach = next (next here (accept fresh 4 (omega arith))) (begin _ 0 refl)

-- Requests that end server.c.
abbrev greeting : World
greeting = record empty_world { reads = ok hello ∷ [] }

no_host : strstr (c_str hello) (bytes "Host: ") ≡ none
unfolding strstr c_str starts_with
no_host = refl

-- ssl-redirect.c
abbrev keys : List (List ℕ)
keys = bytes "b.c" ∷ []

abbrev blocked_request : World
blocked_request = record { reads = ok request ∷ []; writes = ok 17 ∷ []; trace = [] }

abbrev up : Host
up = record { file = some lines; address = true; reuse = false; binds = true; listens = true }

quits : (main listed_set net up 4 blocked_request).0 ≡ exited 0
unfolding main start load main_connection SslRedirect.serve SslRedirect.request_text terminate c_str
    strip_line parse_host copy_hostname copy_port strstr starts_with strncpy array_str
    SslRedirect.forbid check_blocklist str_eq read write_all_to_socket
quits = refl

main-exited_example : contacts (main listed_set net up 4 blocked_request).1.trace ≡ contacts []
main-exited_example = main-exited listed_set net up 4 blocked_request 0 quits

abbrev chunks : List (List ℕ)
chunks = hello ∷ bytes "you" ∷ []

-- The client has closed when the last two reads are made.
abbrev until_closed : List (List ℕ)
until_closed = hello ∷ bytes "you" ∷ [] ∷ [] ∷ []

abbrev open_to_all : Host
open_to_all = record up { file = some [] }

started : start listed_set open_to_all ≡ done []
unfolding start load
started = refl

is_off : check_blocklist listed_set [] host ≢ 1
unfolding check_blocklist
is_off = omega arith

abbrev chatting : World
chatting = record {
  reads = ok request ∷ arrive until_closed;
  writes = ok 10 ∷ taken_whole until_closed;
  trace = [];
}

main-tunnels_example :
    let (r, w') = main listed_set net open_to_all 4 chatting in
    (r ≡ blocked)
    × (contacts w'.trace ≡ host ∷ contacts [])
    × (delivered 4 w'.trace ≡ delivered 4 [] ++ established)
    × (delivered 5 w'.trace ≡ delivered 5 [] ++ bytes "helloyou")
main-tunnels_example =
    main-tunnels 4 5 until_closed (λ e. omega arith) before host port crlf good listed_set net
      open_to_all chatting started refl (omega arith) is_off refl refl refl refl

-- redirect.c
abbrev entries : List (List ℕ)
entries = bytes "b.c" ∷ bytes "d.e" ∷ []

loaded : Redirect.load (some lines) ≡ done entries
unfolding Redirect.load load_entries push_entry strip_line c_str
loaded = refl

abbrev with_blank : List (List ℕ)
with_blank = (bytes "b.c" ++ (10 ∷ [])) ∷ (10 ∷ []) ∷ []

loaded_blank : Redirect.load (some with_blank) ≡ done (bytes "b.c" ∷ [] ∷ [])
unfolding Redirect.load load_entries push_entry strip_line c_str
loaded_blank = refl

abbrev dns : Redirect.Net
dns = record { socket = pos 5; gethostbyname = λ h. some 7 }

read_request : request_host (request ++ (0 ∷ [])) ≡ done host
unfolding request_host scan_host check_length strstr starts_with isspace c_str
read_request = refl

not_blocked : is_blocked [] host ≡ false
unfolding is_blocked
not_blocked = refl

is_stopped : is_blocked entries host ≡ true
unfolding is_blocked starts_with
is_stopped = refl

page_free : is_blocked entries page_host ≡ false
unfolding is_blocked starts_with
page_free = refl

abbrev turned_away : World
turned_away = record {
  reads = ok request ∷ ok hello ∷ ok (bytes "you") ∷ ok [] ∷ [];
  writes = ok 0 ∷ ok 145 ∷ ok 73 ∷ ok 8 ∷ [];
  trace = [];
}

main_round-Answered_example : Answered 4 5 chunks turned_away (main_round dns entries 4 turned_away)
main_round-Answered_example =
    main_round-Answered dns entries 4 5 chunks (λ e. ground arith) (omega arith, (omega arith, tt))
      (omega arith) page_free refl refl turned_away request host refl refl (omega arith)
      read_request is_stopped

-- The page is five bytes longer than what the array takes.
unfoldable rest_of_page : List ℕ
rest_of_page = replicate response_size 7

length-rest_of_page : length rest_of_page ≡ response_size
unfolding rest_of_page
length-rest_of_page = length-replicate {A = ℕ} response_size 7

abbrev page : List (List ℕ)
page = hello ∷ rest_of_page ∷ []

length-joined_two : (xs ys : List ℕ) → length ys ≤ length (joined (xs ∷ ys ∷ []))
length-joined_two xs ys = omega (arith, length-append xs (ys ++ []), length-append ys [])

page-enough : response_size ≤ length (joined page)
page-enough =
    subst (λ n. n ≤ length (joined page)) length-rest_of_page (length-joined_two hello rest_of_page)

rest_of_page-Full : 0 < length rest_of_page
rest_of_page-Full = subst (λ n. 0 < n) (sym length-rest_of_page) (omega arith)

abbrev paged : World
paged = record { reads = arrive page ++ []; writes = ok 3 ∷ ok 2 ∷ []; trace = [] }

send_req-fits_example : (send_req 5 hello paged).0 ≡ done (take response_size (joined page))
send_req-fits_example =
    send_req-fits 5 hello page [] paged (omega arith)
      (omega arith, omega arith, (omega arith, omega arith, refl)) refl
      (omega arith, (rest_of_page-Full, tt)) page-enough
