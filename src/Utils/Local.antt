-- ===== src/Utils/Local.antt =====
-- `parseHost` makes no system call.
use proxy.Base.{ℕ, List}
use proxy.Sys.Local.{IsLocal, local_rules}
use proxy.Utils.{parse_host, copy_hostname, copy_port}

pub parse_host-IsLocal : (text : List ℕ) → IsLocal (parse_host text)
unfolding parse_host copy_hostname copy_port
parse_host-IsLocal text = search local_rules depth 12
