-- ===== src/OldServer/Command.antt =====
-- The command that old_server.c gives to the shell.
use proxy.Base.{
  ℕ, ◌-◌, ◌≡◌, ◌<◌, sym, ap, ◌∙◌, some, List, [], ◌∷◌, ◌++◌, arith, bytes, length, take,
  length-append, take-length-append, lt→ltb, append_assoc,
}
use proxy.CString.{strstr, ptr_diff}
use proxy.CString.Laws.{Lacks, strstr-append, strstr-Lacks}
use proxy.Sys.{done}
use proxy.Utils.{crlf}
use proxy.OldServer.{ssl_command}

-- If the first "Host: " is the one after `before`, the text after it has no carriage return before
-- the line's end, and the command fits into 1024 bytes, then the child runs openssl with that text
-- as it is, whatever it means to the shell.
pub ssl_command-line :
    (before host rest : List ℕ)
    → strstr (before ++ bytes "Host: ") (bytes "Host: ") ≡ some (bytes "Host: ")
    → Lacks 13 host
    → length host < 998
    → ssl_command (before ++ (bytes "Host: " ++ (host ++ (crlf ++ rest))))
      ≡ done (bytes "openssl s_client -connect " ++ host)
unfolding ssl_command
ssl_command-line before host rest first lacks fits =
    let found : strstr (before ++ (bytes "Host: " ++ (host ++ (crlf ++ rest)))) (bytes "Host: ")
        ≡ some (bytes "Host: " ++ (host ++ (crlf ++ rest))) =
      ap (λ s. strstr s (bytes "Host: "))
        (sym (append_assoc before (bytes "Host: ") (host ++ (crlf ++ rest))))
      ∙ strstr-append (before ++ bytes "Host: ") (bytes "Host: ") (host ++ (crlf ++ rest)) first in
    let cut : take (ptr_diff (crlf ++ rest) (host ++ (crlf ++ rest))) (host ++ (crlf ++ rest))
        ≡ host =
      let size : length (host ++ (crlf ++ rest)) - length (crlf ++ rest) ≡ length host =
        omega (arith, length-append host (crlf ++ rest)) in
      rw (size, take-length-append host (crlf ++ rest)) in
    rw found (
      rw (strstr-Lacks 13 (10 ∷ []) host rest lacks) (
        rw cut
          (rw (lt→ltb (length (bytes "openssl s_client -connect " ++ host)) 1024 (omega (arith))))))
