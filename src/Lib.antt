-- ===== src/Lib.antt =====
-- The proxies of this repository: programs that accept a client, read the host from the client's
-- request, look it up in a block list, and carry bytes between the client and the host.
--
-- The programs, and the files that model them:
--   utils.c         Utils: the loops that read and write a whole buffer, `connect_to_server`, and
--                   `parseHost` (`parse_host`, in the steps `copy_hostname` and `copy_port`).
--   server.c        Server: `checkBlocklist`, the load of blocked_list.txt, and `HandleConnection`
--                   (`handle_connection`, in the steps `dispatch`, `serve`, `forbid`, `tunnel` and
--                   `carry`) with its loop `relay`, which `HostToCli` (`host_to_cli`) shares.
--                   Server/Main: `main`, with its start as `start` and its accept loop as steps.
--                   Server/Protocol: what a thread may do with its client, as an automaton.
--                   Server/Sharing: the threads that serve the clients, with their calls in any order
--                   over the one table of descriptors and the one variable `client_fd` of `main`,
--                   whose address each thread is given. A thread serves what it finds there when it
--                   first runs. Server/Sharing/Handing: each thread that has read the variable before
--                   the next `accept` returns has its own client; Server/Main/Twice has what goes
--                   wrong otherwise. The destination's descriptor counts as opened when `HostToCli` is
--                   created.
--                   Server/Sharing/Readers adds the threads that run `HostToCli`, and
--                   Server/Sharing/Hearing what each client and each destination is given, with
--                   Server/Sharing/Bytes for what a single call gives.
--   ssl-redirect.c  SslRedirect: `main`, which serves one client, with its loop `forward`.
--   redirect.c      Redirect: `parseReq`, `sendReq`, the load of the block list, and `main` with its
--                   accept loop, in which each round has a network of its own.
--   multiproc_serv.c
--                   MultiprocServ: `connection_thread` (in the steps `pass_on`, `fetch_from`, `fetch`
--                   and `refuse`), and `main` with its start (`listen_first`) and its accept loop.
--                   MultiprocServ/Reaping: `sigchld_handler`.
--   multiproc_client.c
--                   MultiprocClient: `main`, which connects by `connect_first` and then runs
--                   `exchange`.
--   old_server.c    OldServer: `makeReq` (`make_req`, with its loops `verify_from` and `collect_from`),
--                   the command of its child (`ssl_command`), and `main`. OldServer/Pipes: the
--                   descriptors of the child.
--   client.c        Client: `main`.
--   Containers/container.c
--                   Container: the loop of `main` and `handleSigint`, which runs where `main` waits
--                   for a line or between two calls of a round, with the calls that they make as
--                   data. Container/Cut: what a round leaves that the handler cuts off.
--                   Container/Child: `startContainer`. Container/Pipe: the pipe by which the loop lets
--                   a child go on, as steps.
--   Containers/test.c
--                   ContainerTest: all its functions.
--   set.h           SimpleSet: the operations of the hash set that the proxies call, as a record, and
--                   what the header documents of them as the laws `IsLawful`. SimpleSet/Listed is an
--                   instance. set.c is a copy of a published library and is not modelled.
--   Containers/includes/vector.h
--                   Vector: the operations of the vector that container.c calls, in the same way, with
--                   Vector/Listed as an instance.
--
-- BlockLists compares the block lists of server.c, redirect.c and multiproc_serv.c over one file.
--
-- server.c and ssl-redirect.c call utils.c and the set. Some programs repeat code of others word for
-- word, and then share a definition: ssl-redirect.c starts the way server.c does, redirect.c opens its
-- listening socket and strips the lines of the block list the way server.c does, multiproc_serv.c
-- strips them so too, and multiproc_client.c tries the addresses of its host the way multiproc_serv.c
-- does.
--
-- The C and the kernel:
--   CString has strings as lists of bytes: a C string ends before its first NUL, and `strstr`,
--   `strncpy` and the like are functions on it. Sys has the system calls: what the kernel answers to
--   the reads and writes of a thread is a script of replies, and what the thread does to the outside
--   is a trace of events. A piece of code ends in an `Outcome`: a result, a call that has not
--   returned (`blocked`), a failed assertion (`aborted`), an access that C leaves undefined
--   (`undefined`), or the end of the program (`exited`). Addresses, sockets and connections are given
--   by `Net`, and by `Host` for the start of a program: these are parameters of the definitions.
--
-- Bounds: the sizes of the arrays are those of the source, and a write past one is `undefined`.
-- There is no fuel: a loop that makes a system call in each round recurs on the script, and is
-- `blocked` when the script is used up, which says that the run has come to its next call and no more:
-- the call waits, or it would return once more, or a signal has ended the process in it. server.c
-- ignores SIGPIPE, the other programs do not. The other loops recur on a text or on the lines of a
-- file. Counts stay below the sizes of the arrays, so their machine widths play no part.
--
-- Not modelled: output to the terminal and the memory that is freed. The two directions of a tunnel are
-- runs of their own, so the order of the bytes of one against the other's is left open. The printing of
-- addresses in multiproc_serv.c is left out.
--
-- Base has what the files share on lists, numbers and Booleans. Tests holds runs on concrete inputs.
pub mod Base
pub mod CString
pub mod Sys
pub mod Utils
pub mod SimpleSet
pub mod Server
pub mod SslRedirect
pub mod Redirect
pub mod MultiprocServ
pub mod MultiprocClient
pub mod OldServer
pub mod Client
pub mod Vector
pub mod Container
pub mod ContainerTest
pub mod BlockLists
pub mod Tests
