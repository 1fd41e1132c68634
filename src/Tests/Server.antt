-- ===== src/Tests/Server.antt =====
-- server.c
use proxy.Base.{
  ℕ, ◌+◌, ◌≡◌, ◌≢◌, ◌↔◌, refl, true, some, List, [], ◌∷◌, ◌++◌, arith, bytes, length, str_eq,
}
use proxy.Base.Int.{pos}
use proxy.CString.{c_str, strstr, starts_with, array_str, strncpy}
use proxy.Sys.{
  Reply, ok, interrupted, World, done, contacts, delivered, taken, closings, read, terminate,
}
use proxy.SimpleSet.Listed.{listed_set, listed_set-IsLawful}
use proxy.Utils.{parse_host, copy_hostname, copy_port, write_all_to_socket, crlf}
use proxy.Server.{
  relay, forbidden, established, forbid, strip_line, load, check_blocklist, serve,
  handle_connection,
}
use proxy.Server.Lines.{OnList}
use proxy.Redirect
use proxy.Redirect.{load_entries, push_entry}
use proxy.MultiprocServ
use proxy.BlockLists.{same_file-agree}
use proxy.Server.Blocklist.{AllStored, check_blocklist_iff}
use proxy.Server.Relay.{stream, whole, Stops, relay-stream, relay-kept}
use proxy.Server.Closings.{handle_connection-closings}
use proxy.Server.Requests.{handle_connection-forbids, handle_connection-tunnels}
use proxy.Server.Main.{Host, start}
use proxy.Tests.Data.{before, host, port, request, hello, net, lines, good}

abbrev keys : List (List ℕ)
keys = bytes "d.e" ∷ bytes "b.c" ∷ []

abbrev up : Host
up = record { file = some lines; address = true; reuse = true; binds = true; listens = true }

loaded : load listed_set [] lines ≡ done keys
unfolding load strip_line c_str str_eq
loaded = refl

started : start listed_set up ≡ done keys
unfolding start load strip_line c_str str_eq
started = refl

stored_all : AllStored listed_set [] lines
unfolding strip_line c_str str_eq
stored_all = ((refl), ((refl), tt))

abbrev blocked_request : World
blocked_request = record {
  reads = ok request ∷ [];
  writes = ok 10 ∷ interrupted ∷ ok 7 ∷ [];
  trace = [];
}

is_on : check_blocklist listed_set keys host ≡ 1
unfolding check_blocklist str_eq
is_on = refl

-- The request is turned away, in two writes with an interrupted one between.
turned_away :
    let (r, w') = handle_connection listed_set net keys 4 blocked_request in
    (r ≡ done tt) × (delivered 4 w'.trace ≡ forbidden) × (contacts w'.trace ≡ [])
unfolding handle_connection serve terminate c_str parse_host copy_hostname copy_port strstr
    starts_with strncpy array_str forbid check_blocklist str_eq read write_all_to_socket delivered
    contacts
turned_away = (refl, refl, refl)

abbrev chat : List (Reply (List ℕ))
chat = ok hello ∷ interrupted ∷ ok (bytes "you") ∷ ok [] ∷ []

abbrev open_request : World
open_request = record {
  reads = ok request ∷ chat;
  writes = ok (length established) ∷ whole chat;
  trace = [];
}

handle_connection-forbids_example :
    let (r, w') = handle_connection listed_set net keys 4 blocked_request in
    (r ≡ done tt)
    × (contacts w'.trace ≡ contacts [])
    × (delivered 4 w'.trace ≡ delivered 4 [] ++ forbidden)
    × (closings 4 w'.trace ≡ closings 4 [] + 1)
handle_connection-forbids_example =
    handle_connection-forbids before host port crlf good listed_set net keys 4 blocked_request refl
      is_on (omega arith) (omega arith) (omega arith)

is_off : check_blocklist listed_set [] host ≢ 1
unfolding check_blocklist
is_off = omega arith

handle_connection-tunnels_example :
    let (r, w') = handle_connection listed_set net [] 4 open_request in
    (contacts w'.trace ≡ host ∷ contacts [])
    × ((r ≡ done tt) ↔ Stops chat)
    × (delivered 4 w'.trace ≡ delivered 4 [] ++ established)
    × (delivered 5 w'.trace ≡ delivered 5 [] ++ stream chat)
handle_connection-tunnels_example =
    handle_connection-tunnels before host port crlf good listed_set net [] 4 open_request
      {rs = chat} {addr = 7} {dest_fd = 5} refl is_off refl refl refl (omega arith) refl

turned_away_done : (handle_connection listed_set net keys 4 blocked_request).0 ≡ done tt
turned_away_done = turned_away.0

four_is_not_five : net.socket ≢ pos 4
four_is_not_five = λ e. ground arith

handle_connection-closings_example :
    closings 4 (handle_connection listed_set net keys 4 blocked_request).1.trace ≡ closings 4 [] + 1
handle_connection-closings_example =
    handle_connection-closings listed_set net keys 4 blocked_request four_is_not_five
      turned_away_done

check_blocklist_iff_example : (check_blocklist listed_set keys host ≡ 1) ↔ OnList host lines
check_blocklist_iff_example =
    check_blocklist_iff listed_set listed_set-IsLawful lines host loaded stored_all

entered : Redirect.load (some lines) ≡ done (bytes "b.c" ∷ bytes "d.e" ∷ [])
unfolding Redirect.load load_entries push_entry strip_line c_str
entered = refl

same_file-agree_example :
    ((check_blocklist listed_set keys host ≡ 1)
      ↔ (MultiprocServ.is_blocked (some lines) host ≡ done true))
    × ((check_blocklist listed_set keys host ≡ 1)
        → Redirect.is_blocked (bytes "b.c" ∷ bytes "d.e" ∷ []) host ≡ true)
same_file-agree_example =
    same_file-agree listed_set listed_set-IsLawful lines host loaded stored_all entered

abbrev talking : World
talking = record { reads = []; writes = whole chat; trace = [] }

relay-stream_example :
    let w' = (relay 4 5 chat talking).1 in
    (delivered 5 w'.trace ≡ delivered 5 [] ++ stream chat)
    × (taken 4 w'.trace ≡ taken 4 [] ++ stream chat)
relay-stream_example = relay-stream 4 5 chat talking refl

-- The destination takes two bytes of the first text, fails for the second and takes the third whole.
abbrev congested : World
congested = record { reads = []; writes = ok 2 ∷ interrupted ∷ ok 3 ∷ []; trace = [] }

abbrev three : List (Reply (List ℕ))
three = ok hello ∷ interrupted ∷ ok hello ∷ ok (bytes "you") ∷ ok [] ∷ []

relay-kept_example :
    delivered 5 (relay 4 5 three congested).1.trace ≡ delivered 5 [] ++ bytes "heyou"
relay-kept_example = relay-kept 4 5 three congested
