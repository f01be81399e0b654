-- ===== src/Chat/Start.antt =====
-- `main` of udpchat/src/main.c: arguments, sockets, the thread, and the way down.
pub mod Arguments
pub mod Ending
pub mod Sockets
use csockets.Base.{
  ℕ, zero, suc, ◌+◌, ◌-◌, Bool, true, false, not, ◌&&◌, Option, none, some, List, [], ◌∷◌, ◌++◌,
  leb, ◌==◌, if◌then◌else◌, length, take,
}
use csockets.Net.{af_inet6}
use csockets.Net.Addrinfo.{Addrinfo, Lookup, Created, not_created, created, create_addrinfo}
use csockets.Chat.Master.{max_bind_count}

abbrev pub Text : Type 0
Text = List ℕ

-- The loop over the arguments behind the port, with the addresses of the earlier ones.
pub parse_ips : List Text → List Text → Option (List Text)
parse_ips [] bind_ips = some bind_ips
parse_ips (a ∷ args) bind_ips =
    let rest = parse_ips args (bind_ips ++ (a ∷ [])) in
    if leb (max_bind_count - 1) (length bind_ips) then none else rest

pub with_port : Text → Option (List Text) → Option (Text × List Text)
with_port port none = none
with_port port (some bind_ips) = some (port, bind_ips)

-- The port and the addresses to bind to; `none` is the jump to args_err.
pub parse_args : List Text → Option (Text × List Text)
parse_args (progname ∷ port ∷ []) = some (port, [])
parse_args (progname ∷ port ∷ a ∷ args) = with_port port (parse_ips (a ∷ args) [])
parse_args _ = none

-- What the system answers for one struct of the list: socket(2), setsockopt(2) and bind(2).
pub record Answers : Type 0 where
  pub sock : Option ℕ
  pub v6only : Bool
  pub bound : Bool

-- The calls with an effect, in their order.
pub data Call : Type 0 where
  opens closes shuts_down : ℕ → Call
  frees : List Addrinfo → Call
  starts : List ℕ → Call
  joins : Call

-- What becomes of one socket: `skip` is the rest of the loop without it, `keep` the rest with it.
-- The Booleans say whether dual stack stays on for IPv6, and whether bind(2) succeeded.
pub bind_sock :
    Option ℕ
    → (dual_stack bound : Bool) → List ℕ
    → (skip : List ℕ × List Call) → (keep : ℕ → List ℕ × List Call) → List ℕ × List Call
bind_sock none dual_stack bound sfd_arr skip keep = skip
bind_sock (some sfd) dual_stack bound sfd_arr skip keep =
    if dual_stack
    then (skip.0, opens sfd ∷ closes sfd ∷ skip.1)
    else if not bound
    then (skip.0, opens sfd ∷ closes sfd ∷ skip.1)
    else if leb max_bind_count (length sfd_arr)
    then (sfd_arr, opens sfd ∷ closes sfd ∷ [])
    else ((keep sfd).0, opens sfd ∷ (keep sfd).1)

-- The loop that binds each address, with the sockets that are in sfd_arr already.
pub bind_loop : (ℕ → Answers) → ℕ → List Addrinfo → List ℕ → List ℕ × List Call
bind_loop system n [] sfd_arr = (sfd_arr, [])
bind_loop system n (ca ∷ rest) sfd_arr =
    let dual_stack = ca.ai_family == af_inet6 && not (system n).v6only in
    bind_sock (system n).sock dual_stack (system n).bound sfd_arr
      (bind_loop system (suc n) rest sfd_arr)
      (λ sfd. bind_loop system (suc n) rest (sfd_arr ++ (sfd ∷ [])))

pub close_all : List ℕ → List Call
close_all [] = []
close_all (sfd ∷ sfds) = closes sfd ∷ close_all sfds

pub shutdown_all : List ℕ → List Call
shutdown_all [] = []
shutdown_all (sfd ∷ sfds) = shuts_down sfd ∷ shutdown_all sfds

-- What becomes of the master thread: pthread_create gives an error; it returns; or it follows NULL, as
-- it does at its end where no user ever came, when `main` has shut down so many sockets.
pub data Thread : Type 0 where
  not_started returned : Thread
  faulted : ℕ → Thread

-- How the program ends: with a status, or by SIGSEGV.
pub data Exit : Type 0 where
  exits : ℕ → Exit
  killed : Exit

-- From pthread_create on; `rest` is what follows the loop at the label pthread_err. No statement sets
-- `status` behind its initialisation.
pub run_thread : Thread → List ℕ → List Call → Exit × List Call
run_thread not_started sfd_arr rest = (exits 0, close_all sfd_arr ++ rest)
run_thread returned sfd_arr rest =
    (exits 0, starts sfd_arr ∷ (shutdown_all sfd_arr ++ (joins ∷ (close_all sfd_arr ++ rest))))
run_thread (faulted n) sfd_arr rest = (killed, starts sfd_arr ∷ shutdown_all (take n sfd_arr))

-- From the loop that binds to the label socket_err.
pub with_sockets : Thread → List Addrinfo → List ℕ × List Call → Exit × List Call
with_sockets thread addr ([], calls) = (exits 0, calls ++ (frees addr ∷ []))
with_sockets thread addr (sfd ∷ sfds, calls) =
    let (exit, later) = run_thread thread (sfd ∷ sfds) (frees addr ∷ []) in (exit, calls ++ later)

-- What the system answers to `main`: whether the signals were set up, getaddrinfo(3) at a port, the
-- answers for each struct, and what becomes of the thread.
pub record Host : Type 0 where
  pub signals : Bool
  pub getaddrinfo : Text → Option Text → Lookup
  pub answers : ℕ → Answers
  pub thread : Thread

pub with_addrinfo : Host → Created → Exit × List Call
with_addrinfo host (not_created ret freed) = (exits 0, [])
with_addrinfo host (created addr) = with_sockets host.thread addr (bind_loop host.answers 0 addr [])

pub with_args : Host → Option (Text × List Text) → Exit × List Call
with_args host none = (exits 0, [])
with_args host (some (port, bind_ips)) =
    let rest = with_addrinfo host (create_addrinfo (host.getaddrinfo port) bind_ips).1 in
    if host.signals then rest else (exits 0, [])

-- main: how it ends, and the calls.
pub main : Host → List Text → Exit × List Call
main host argv = with_args host (parse_args argv)
