-- ===== src/PollServer.antt =====
-- tcpPrintServer_poll/src/socketloop.c and clienthandle.c: a server that sends back what it reads,
-- over an array of pollfd. The calls of the system that have an effect are listed in their order.
pub mod Conservation
pub mod Admission
pub mod Visits
pub mod Refinement
pub mod Clients
mod Tests
use csockets.Base.{
  ℕ, zero, suc, ◌+◌, ◌-◌, ◌/◌, ◌%◌, Bool, true, false, Option, none, some, List, [], ◌∷◌, ◌++◌,
  ◌==◌, if◌then◌else◌, take,
}

abbrev pub pollmax : ℕ
pollmax = 20

abbrev pub pollin : ℕ
pollin = 1

abbrev pub pollerr : ℕ
pollerr = 8

-- A descriptor; -1 is `none`.
abbrev pub Fd : Type 0
Fd = Option ℕ

-- struct pollfd
pub record Pollfd : Type 0 where
  pub fd : Fd
  pub events : ℕ
  pub revents : ℕ

pub data Call : Type 0 where
  closes : Fd → Call
  writes : Fd → List ℕ → Call

-- `(revents & flag) > 0` for a flag of one bit.
pub has_flag : ℕ → ℕ → Bool
has_flag flag revents = revents / flag % 2 == 1

pub set_revents : ℕ → Pollfd → Pollfd
set_revents revents p = record { fd = p.fd; events = p.events; revents = revents }

-- clienthandle: the outcome of read(2) is at least one and at most 10 bytes, or `none`.
pub clienthandle : Option (List ℕ) → Pollfd → Pollfd × List Call
clienthandle none p = (set_revents pollerr p, [])
clienthandle (some bytes) p = (p, writes p.fd bytes ∷ [])

-- The check for errors behind the handler.
pub drop_on_error : Pollfd × List Call → Pollfd × List Call
drop_on_error (p, calls) =
    if has_flag pollerr p.revents
    then (record { fd = none; events = 0; revents = p.revents }, calls ++ (closes p.fd ∷ []))
    else (p, calls)

-- One client of the array.
pub serve : Option (List ℕ) → Pollfd → Pollfd × List Call
serve input p = drop_on_error (if has_flag pollin p.revents then clienthandle input p else (p, []))

-- The `for` loop over the clients. `input n` is the outcome of read(2) at index `n`.
pub serve_loop : (ℕ → Option (List ℕ)) → ℕ → List Pollfd → List Pollfd × List Call
serve_loop input n [] = ([], [])
serve_loop input n (p ∷ ps) =
    let (p, calls) = serve (input n) p in
    let (ps, later) = serve_loop input (suc n) ps in (p ∷ ps, calls ++ later)

-- The search for a free place.
pub free_spot : ℕ → List Pollfd → Option ℕ
free_spot n [] = none
free_spot n (p ∷ ps) =
    let rest = free_spot (suc n) ps in elim p.fd [ none ↦ some n | some fd ↦ rest ]

-- `fds[freespot].fd = acceptr; fds[freespot].events = POLLIN`, where the array starts at index `n`.
pub set_client : ℕ → ℕ → ℕ → List Pollfd → List Pollfd
set_client fd spot n [] = []
set_client fd spot n (p ∷ ps) =
    let rest = set_client fd spot (suc n) ps in
    if n == spot
    then record { fd = some fd; events = pollin; revents = p.revents } ∷ ps
    else p ∷ rest

-- "Server is full\n" with the zero that ends the string.
abbrev pub fullmsg : List ℕ
fullmsg =
    83 ∷ 101 ∷ 114 ∷ 118 ∷ 101 ∷ 114 ∷ 32 ∷ 105 ∷ 115 ∷ 32 ∷ 102 ∷ 117 ∷ 108 ∷ 108 ∷ 10 ∷ 0 ∷ []

-- The accepted client gets the free spot, if there is one.
pub place_client : ℕ → Option ℕ → List Pollfd → List Pollfd × List Call
place_client fd none ps = (ps, writes (some fd) fullmsg ∷ closes (some fd) ∷ [])
place_client fd (some spot) ps = (set_client fd spot 1 ps, [])

-- A client that wants to be accepted; the argument is the result of accept(2), `none` where it fails.
pub accept_client : Option ℕ → List Pollfd → List Pollfd × List Call
accept_client none ps = (ps, [])
accept_client (some fd) ps = place_client fd (free_spot 1 ps) ps

-- The clients that are closed when poll(2) finds no descriptor in time.
pub kick : List Pollfd → List Call
kick [] = []
kick (p ∷ ps) =
    let rest = kick ps in
    elim p.fd [ none ↦ rest | some fd ↦ if p.revents == pollerr then rest else closes p.fd ∷ rest ]

-- What poll(2) writes into the array.
pub receive : List ℕ → List Pollfd → List Pollfd
receive rs [] = []
receive [] (p ∷ ps) = set_revents 0 p ∷ receive [] ps
receive (r ∷ rs) (p ∷ ps) = set_revents r p ∷ receive rs ps

-- The listener, which is fds[0], and the clients behind it.
pub record Server : Type 0 where
  pub listener : Pollfd
  pub clients : List Pollfd

-- The result of poll(2), with the revents of the listener and of the clients where it has any.
pub data Polled : Type 0 where
  poll_failed timed_out : Polled
  ready : ℕ → List ℕ → Polled

-- What the system answers in one turn of the loop.
pub record Round : Type 0 where
  pub polled : Polled
  pub input : ℕ → Option (List ℕ)
  pub accepted : Option ℕ

-- The process exits with a code, or goes on.
pub data Outcome : Type 0 where
  exits : ℕ → Outcome
  goes : Server → Outcome

-- The checks of the listener behind the loop over the clients.
pub check_listener : Option ℕ → Pollfd → List Pollfd × List Call → Outcome × List Call
check_listener accepted listener (clients, calls) =
    let (more, later) = accept_client accepted clients in
    if listener.revents == pollerr
    then (exits 2, calls)
    else if listener.revents == pollin
    then (goes (record { listener = listener; clients = more }), calls ++ later)
    else (goes (record { listener = listener; clients = clients }), calls)

-- One turn of `while(1)`.
pub turn : Round → Polled → Server → Outcome × List Call
turn r poll_failed s = (exits 2, [])
turn r timed_out s =
    let clients = receive [] s.clients in
    (goes (record { listener = set_revents 0 s.listener; clients = clients }), kick clients)
turn r (ready revents rs) s =
    check_listener r.accepted (set_revents revents s.listener)
      (serve_loop r.input 1 (receive rs s.clients))

-- What follows a turn: nothing where the process exited.
pub after : Outcome × List Call → (Server → Outcome × List Call) → Outcome × List Call
after (exits code, calls) next = (exits code, calls)
after (goes s, calls) next = let (o, later) = next s in (o, calls ++ later)

-- The loop, as long as rounds are given.
pub rounds : List Round → Server → Outcome × List Call
rounds [] s = (goes s, [])
rounds (r ∷ rs) s = after (turn r r.polled s) (rounds rs)

-- The places that no client has.
pub vacant : ℕ → List Pollfd
vacant zero = []
vacant (suc n) = record { fd = none; events = 0; revents = 0 } ∷ vacant n

-- create_socket: the results of socket(2), bind(2) and listen(2).
pub create_socket : Option ℕ → Bool → Bool → Option ℕ
create_socket none bound listening = none
create_socket (some fd) bound listening =
    if bound then (if listening then some fd else none) else none

-- socketloop
pub socketloop : Option ℕ → Bool → Bool → List Round → Outcome × List Call
socketloop sock bound listening rs = elim (create_socket sock bound listening) [
  | none ↦ (exits 1, [])
  | some fd ↦
      let listener : Pollfd = record { fd = some fd; events = pollin; revents = 0 } in
      rounds rs (record { listener = listener; clients = vacant (pollmax - 1) })
]
