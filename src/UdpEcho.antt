-- ===== src/UdpEcho.antt =====
-- udpecho/main.c: a server that sends each datagram back to its sender, with a thread per socket.
-- Its arguments are handled as in udpchat.
pub mod Addresses
pub mod Loop
pub mod Resources
pub mod Sockets
pub mod Threads
mod Tests
use csockets.Base.{
  ℕ, zero, suc, ◌+◌, Bool, true, false, not, Option, none, some, List, [], ◌∷◌, ◌++◌, leb, ltb,
  ◌==◌, if◌then◌else◌, length, take, drop,
}
use csockets.Net.{af_inet, af_inet6}
use csockets.Net.Addrinfo.{
  Addrinfo, Lookup, gai_error, addresses, Created, not_created, created, append_last,
}
use csockets.Chat.Master.{max_bind_count}
use csockets.Chat.Start.{Text, parse_args, Call, opens, closes, frees, starts, joins}

-- addr2str; the first argument is inet_ntop(3), which gets the bytes of the address.
pub addr2str : (ℕ → List ℕ → Option Text) → Addrinfo → Option Text
addr2str inet_ntop addr =
    if addr.ai_family == af_inet
    then inet_ntop af_inet (take 4 (drop 4 addr.ai_addr))
    else if addr.ai_family == af_inet6
    then inet_ntop af_inet6 (take 16 (drop 8 addr.ai_addr))
    else none

-- The loop over the addresses to bind to; the result of getaddrinfo(3) is only logged.
pub addrinfo_loop : (Text → Lookup) → List Text → List Addrinfo → Created
addrinfo_loop resolve [] first = created first
addrinfo_loop resolve (ip ∷ ips) first = elim (resolve ip) [
  | gai_error ret ↦ not_created 1 first
  | addresses current ↦ addrinfo_loop resolve ips (append_last first current)
]

-- Where there is none the system chooses.
pub any_address : Lookup → Created
any_address (gai_error ret) = not_created 1 []
any_address (addresses first) = created first

-- create_addrinfo; the first argument is getaddrinfo(3) at the port and the hints.
pub create_addrinfo : (Option Text → Lookup) → List Text → Created
create_addrinfo getaddrinfo [] = any_address (getaddrinfo none)
create_addrinfo getaddrinfo (ip ∷ ips) = addrinfo_loop (λ a. getaddrinfo (some a)) (ip ∷ ips) []

-- What the system answers for one struct of the list: socket(2), bind(2) and setsockopt(2).
pub record Answers : Type 0 where
  pub sock : Option ℕ
  pub bound : Bool
  pub timeout_set : Bool

-- What becomes of one socket: `skip` is the rest of the loop without it, `keep` the rest with it.
pub bind_sock :
    Option ℕ
    → (bound timeout_set : Bool) → List ℕ
    → (skip : List ℕ × List Call) → (keep : ℕ → List ℕ × List Call) → List ℕ × List Call
bind_sock none bound timeout_set sfd_arr skip keep = skip
bind_sock (some sfd) bound timeout_set sfd_arr skip keep =
    if not bound
    then (skip.0, opens sfd ∷ closes sfd ∷ skip.1)
    else if not timeout_set
    then (skip.0, opens sfd ∷ closes sfd ∷ skip.1)
    else if leb max_bind_count (length sfd_arr)
    then (sfd_arr, opens sfd ∷ closes sfd ∷ [])
    else ((keep sfd).0, opens sfd ∷ (keep sfd).1)

-- The loop that creates the sockets and binds them.
pub bind_loop : (ℕ → Answers) → ℕ → List Addrinfo → List ℕ → List ℕ × List Call
bind_loop system n [] sfd_arr = (sfd_arr, [])
bind_loop system n (ca ∷ rest) sfd_arr =
    bind_sock (system n).sock (system n).bound (system n).timeout_set sfd_arr
      (bind_loop system (suc n) rest sfd_arr)
      (λ sfd. bind_loop system (suc n) rest (sfd_arr ++ (sfd ∷ [])))

-- The loop that creates a thread for each socket: whether all went well, children_len, and the calls.
-- `system n` says whether pthread_create gives no error at index `n`.
pub thread_loop : (ℕ → Bool) → ℕ → List ℕ → Bool × ℕ × List Call
thread_loop system n [] = (true, n, [])
thread_loop system n (sfd ∷ rest) =
    let later = thread_loop system (suc n) rest in
    if not (system n)
    then (false, n, [])
    else if leb max_bind_count n
    then (true, n, starts (sfd ∷ []) ∷ [])
    else (later.0, later.1, starts (sfd ∷ []) ∷ later.2)

pub join_all : ℕ → List Call
join_all zero = []
join_all (suc n) = joins ∷ join_all n

-- The loop that closes the sockets; none of them is -1.
pub close_sockets : List ℕ → List Call
close_sockets [] = []
close_sockets (sfd ∷ sfds) = closes sfd ∷ close_sockets sfds

-- What the system answers to `main`; the first field says whether the mutex and the signals were
-- set up.
pub record Host : Type 0 where
  pub ready : Bool
  pub getaddrinfo : Text → Option Text → Lookup
  pub answers : ℕ → Answers
  pub threads : ℕ → Bool

-- From the threads to the label socket_err.
pub with_threads : Bool × ℕ × List Call → List ℕ → ℕ × List Call
with_threads (fine, children_len, calls) sfd_arr =
    (if fine then 0 else 1, calls ++ (join_all children_len ++ close_sockets sfd_arr))

-- From the sockets to the end.
pub with_sockets : (ℕ → Bool) → List Addrinfo → List ℕ × List Call → ℕ × List Call
with_sockets threads addr ([], calls) = (1, calls ++ (frees addr ∷ []))
with_sockets threads addr (sfd ∷ sfds, calls) =
    let (status, later) = with_threads (thread_loop threads 0 (sfd ∷ sfds)) (sfd ∷ sfds) in
    (status, calls ++ (later ++ (frees addr ∷ [])))

pub with_addrinfo : Host → Created → ℕ × List Call
with_addrinfo host (not_created ret freed) = (1, [])
with_addrinfo host (created addr) =
    with_sockets host.threads addr (bind_loop host.answers 0 addr [])

pub with_args : Host → Option (Text × List Text) → ℕ × List Call
with_args host none = (1, [])
with_args host (some (port, bind_ips)) =
    with_addrinfo host (create_addrinfo (host.getaddrinfo port) bind_ips)

-- main: the exit status and the calls.
pub main : Host → List Text → ℕ × List Call
main host argv = let rest = with_args host (parse_args argv) in if host.ready then rest else (1, [])
