-- ===== src/Lib.antt =====
-- A verification library for the C programs of this repository: udpchat, a chat server over UDP,
-- tcpPrintServer_poll and tcpEchoServer, TCP servers that send back what they read, udpecho, a UDP
-- server that does the same, and udpmsg, a UDP server that prints what it gets.
--
-- # udpchat
--
-- The main thread (udpchat/src/main.c, `main`) reads the arguments, binds a socket for each address
-- and starts the master thread (`master_func`), which does all the input and output. For each datagram
-- `msg_handle` makes a user out of the sender's address, brings the table of active users up to date
-- (`user_table_update`) and sends the text to every user (`user_table_every` with `sendall_func`).
-- The table tells those that timed out through a callback (`timeout_func`). Both callbacks get their
-- text from `msg_formatter`, and clients are told apart by `sockaddr_cmp`.
--
-- - Net: udpchat/src/util/net.c. An address is the list of the bytes of a sockaddr_storage, laid out
--   as on Linux on a little-endian machine. `sockaddr_cmp` gives an `Ordering` for its -1, 0 and 1.
--   Net/Compare is about its order, Net/Clients about addresses up to this comparison, as a quotient;
--   Net/Addrinfo has `create_addrinfo` and `addr2str`, where getaddrinfo(3) and inet_ntop(3) are
--   parameters, the nodes that getaddrinfo(3) is called for are listed, and a linked list of addrinfo
--   is a list.
-- - Heap: the memory of `struct user` nodes (udpchat/src/users.h), and commands on it. An access to an
--   address that holds no node is a `fault`. A callback gets the data of a node and changes a state
--   `W` of its own, never the memory; both callbacks of the program are of this kind.
-- - Users: udpchat/src/users.c. `user_table_init`, `user_table_update`, `user_table_every`,
--   `user_table_free` and `user_calculate_id` have the names of the source, and each part of the long
--   loop of `user_table_update` is a command of its own (`found`, `sweep`, `remove`, `unlink`,
--   `update_last`, `add_last`, `link_last`). The result of malloc(3) and each reading of the clock
--   are fields of `Env`. Users/Layout says which memory holds a list of users, Users/Links,
--   Users/Surgery and Users/Update are the steps on it, Users/Roster is the abstract update of a
--   list with no pointers, Users/Contract ties the two, Users/Members says who is in a list
--   after it, Users/Behaviour puts both together for the code, Users/Traverse is about the other two
--   operations, Users/Id about the ids.
-- - Formatter: udpchat/src/msg_formatter.c, with the sizes of udpchat/src/config.h. The two buffers
--   that live from call to call are `Buffers`; a write outside of an array is `none`.
--   Formatter/Frame describes the text.
-- - Chat: `msg_handle`; Chat/Callbacks: `sendall_func` and `timeout_func`; Chat/Master: `master_func`;
--   Chat/Start: `main`. The outcomes of the system's calls are values: `Received` for recvfrom(2),
--   `Polled` for poll(2), `Answers` and `Host` for what `main` calls; whether sendto(2) accepts a
--   datagram is a function of those sent so far. The datagrams are listed in `World`, and the
--   calls of `main` that open, close or start something in a list of `Call`.
--   Chat/Relay is the abstract server: `Relayed` says which users and datagrams a sequence of messages
--   leads to, by the abstract update of the table, and Chat/Master/Schedule which messages the
--   thread handles. What becomes of the master thread is a `Thread` in Chat/Start: where it follows
--   NULL, `main` gets no further. Chat/Handle, Chat/Settled, Chat/Master/Loops, Chat/Master/Safety
--   and Chat/Start/* hold the proofs.
-- - Chat/Shutdown: the two threads of udpchat/src/main.c side by side, as a relation between states.
--   A `State` is where each thread stands, the flag `run` and whether the table of active users has a
--   user, and a step is one access to the flag or one call that matters to the sockets. An access to
--   NULL (`faults`) kills the program. Whether shutdown(2) ends a poll(2) on a socket without a peer is
--   a parameter, `wakes`. Chat/Shutdown/Occupied is about the table, Chat/Shutdown/Order about the order
--   in which the sockets are given up, Chat/Shutdown/Ending about the way to the end.
-- - Log: udpchat/src/util/print.h, and the log functions of udpecho/main.c (`print_echo`). A log call is
--   a list of actions on the mutex and the output, and threads act in any order (`Step`). Log/Programs,
--   Log/Lines and Log/Merging are about the output, Log/Deadlock about a log function that is switched
--   off.
--
-- # The earlier version of udpchat
--
-- - OldChat: udpchat/src/main.old.c, which is not built. Its queue of active users (chat_user_queue) is
--   not in the repository: `Queue` has its operations, and `Fifo` says that it keeps its order and its
--   bound. A turn of a thread between the lock and the unlock of active_users_lock is one step, and a
--   mutex that stays locked makes the next thread wait. The arguments, the list of addresses and the
--   threads are those of udpecho. OldChat/Admission is about the queue, OldChat/Relay about one thread,
--   OldChat/Resources about `main`.
-- - OldChat/Threads: all the threads of `rw_loop_func` side by side, as a relation between states. They
--   share the queue, and a step is one call that concerns the mutex, the queue or a socket.
--   OldChat/Threads/Exclusion is about the mutex, OldChat/Threads/Owed and OldChat/Threads/Order about
--   the server that handles one message after the other, OldChat/Threads/Occupied and
--   OldChat/Threads/Progress about threads that wait for the mutex, OldChat/Threads/Failure about one
--   that returns with it, and OldChat/Threads/Alone ties these steps to `rw_loop_func` of OldChat.
-- - OldChat/Program: `main` from its first thread on, with these threads. A `Program` is where `main`
--   stands, the flags and the state of the threads. OldChat/Program/Actors and
--   OldChat/Program/Invariant say what each step keeps, OldChat/Program/Shutdown is about what comes
--   before the queue is given back, OldChat/Program/Measure and OldChat/Program/Ending about the way
--   to the end, and OldChat/Program/Hang about an end that never comes.
--
-- # tcpPrintServer_poll
--
-- - PollServer: tcpPrintServer_poll/src/socketloop.c and clienthandle.c. The array of pollfd is the
--   listener and the list of the others; a descriptor -1 is `none`. One turn of the endless loop takes
--   the answers of the system from a `Round`, and the calls of close(2) and write(2) are listed.
--   PollServer/Conservation counts descriptors. PollServer/Refinement has a server on places for clients,
--   PollServer/Visits and PollServer/Admission what a turn does to them in the code. PollServer/Clients
--   and the modules below it follow one client over many turns.
--
-- # tcpEchoServer
--
-- - TcpEcho: tcpEchoServer/src/main.c. `client_handle` runs over a list of results of read(2), and
--   `accept_loop` over a list of clients, as long as they are given; what C leaves undefined is an
--   outcome of its own. TcpEcho/Reading and TcpEcho/Serving are about clients that send enough,
--   TcpEcho/Stalls about the others.
--
-- # udpecho
--
-- - UdpEcho: udpecho/main.c. `rw_loop_func` (UdpEcho/Loop) runs in a thread for each socket, over a
--   list of `Turn`, with its buffer and its `struct sockaddr_storage` as bytes in `Locals`; `main` opens
--   the sockets and starts and joins the threads. Its arguments have the text of udpchat's, so the
--   definitions of Chat/Start serve here too; its create_addrinfo differs from the one of Net, and
--   UdpEcho/Addresses compares them. UdpEcho/Loop/Echo is about the thread, UdpEcho/Sockets and
--   UdpEcho/Resources about descriptors and threads.
-- - UdpEcho/Threads: `main` from its first thread on and the threads, as a relation between states. A
--   `State` is where each stands and the flags. A recvfrom(2) ends by itself, as the socket has a
--   timeout. UdpEcho/Threads/Moves and UdpEcho/Threads/Invariant are the steps on an invariant,
--   UdpEcho/Threads/Order is about what comes before the sockets are closed, UdpEcho/Threads/Ending
--   about the way to the end.
--
-- # udpmsg
--
-- - UdpMsg: udpmsg/main.old.c (main.c is an empty program). A `struct sockaddr` is its 16 bytes, and an
--   access outside of them or of the buffer is `none`; inet_pton(3) and inet_ntop(3) are parameters.
--   UdpMsg/Address is about `main` and `parse_ip`, UdpMsg/Trim about the loop that cuts off newlines,
--   UdpMsg/Receiving about a turn, UdpMsg/Errors about the errors that are counted, UdpMsg/Printing
--   about the output for all that arrives.
--
-- # Shared
--
-- - Base has the library names, the lemmas on lists, numbers and options and the operators that the
--   modules share; Base/Families is on what each of several threads has of its own.
--
-- # Bounds
--
-- The loops over the table run on fuel, and one more than the number of users is enough: every theorem
-- about them has such a bound among its hypotheses and gives the result, so that no run is cut off.
-- For the thread the bound is the number of messages that poll(2) reports. The endless loops take a
-- list of what arrives. Sums of 16 bits in `user_calculate_id` and the length that `msg_formatter` hands
-- to memcpy(3) are computed with their wrap-around. A `time_t` is a number of seconds since 1970, so it
-- is not negative.
--
-- # Not modelled
--
-- The formatting of log lines by printf(3), tcpPrintServer_poll/src/log.h and main.c, which only call
-- it and `socketloop`, tcpPrintServer_poll/src/main.c.backup, an older copy that is not built, and the
-- client in demojs, which is written in another language.

pub mod Base
pub mod Chat
pub mod Formatter
pub mod Heap
pub mod Log
pub mod Net
pub mod OldChat
pub mod PollServer
pub mod TcpEcho
pub mod UdpEcho
pub mod UdpMsg
pub mod Users
