-- ===== src/OldChat.antt =====
-- udpchat/src/main.old.c: the earlier version of the chat server, with a thread per socket and a
-- bounded queue of active users, whose code is not in the repository. Its arguments, its list of
-- addresses and its threads are handled as in udpecho.
pub mod Admission
pub mod Relay
pub mod Resources
pub mod Threads
pub mod Program
mod Tests
use csockets.Base.{
  ℕ, zero, suc, ◌+◌, Bool, true, false, not, ◌&&◌, ◌||◌, Option, none, some, List, [], ◌∷◌, ◌++◌,
  map, ◌==◌, if◌then◌else◌, take,
}
use csockets.Net.{Storage, af_inet6}
use csockets.Net.Addrinfo.{Addrinfo, Lookup, Created, not_created, created}
use csockets.Chat.Start.{Text, parse_args, Call}
use csockets.UdpEcho.{bind_sock, with_sockets, create_addrinfo}

abbrev pub max_active_user_count : ℕ
max_active_user_count = 2

-- struct chat_user
pub record User : Type 0 where
  pub addr : Storage
  pub addr_len : ℕ

-- What is handed to sendto(2).
pub record Sending : Type 0 where
  pub sfd : ℕ
  pub buffer : List ℕ
  pub user : User

-- chat_user_queue_includes, with its result 1 as `true`, chat_user_queue_push and chat_user_queue_pop
-- with their return codes and the queue behind them, and chat_user_queue_every for a callback that
-- adds to the datagrams that were sent.
pub record Queue (Q : Type 0) : Type 0 where
  pub includes : Q → User → Bool
  pub push : Q → User → ℕ × Q
  pub pop : Q → ℕ × Q
  pub every : (User → List Sending → List Sending) → Q → List Sending → List Sending

-- recvfrom(2) gives bytes and the sender's address with its length, EAGAIN or EWOULDBLOCK, EINTR, or
-- another error.
pub data Receipt : Type 0 where
  packet : List ℕ → Storage → ℕ → Receipt
  again interrupted broken : Receipt

-- A turn of the loop: the flag, the receipt, and whether the calls that lock and unlock
-- active_users_lock give no error.
pub record Turn : Type 0 where
  pub run : Bool
  pub receipt : Receipt
  pub lock_fine : Bool
  pub unlock_fine : Bool

-- What the threads share, and what was sent. `locked` is the state of active_users_lock.
pub record World (Q : Type 0) : Type 0 where
  pub queue : Q
  pub locked : Bool
  pub sent : List Sending

-- How a thread stands: it returned NULL or NULL+1, goes on, or waits for a mutex that is held.
pub data Status : Type 0 where
  returns : ℕ → Status
  loops blocks : Status

abbrev pub sending : ℕ → List ℕ → User → Sending
sending sfd buffer user = record { sfd = sfd; buffer = buffer; user = user }

-- An error of sendto(2) is only logged.
pub active_user_send_func : ℕ → List ℕ → User → List Sending → List Sending
active_user_send_func sfd buffer user sent = sent ++ (sending sfd buffer user ∷ [])

-- What follows the turns of the loop that went well.
pub after : {Q : Type 0} → Status × World Q → (World Q → Status × World Q) → Status × World Q
after (returns n, w) next = (returns n, w)
after (blocks, w) next = (blocks, w)
after (loops, w) next = next w

module _ {Q : Type 0} (queue : Queue Q) where
  -- The second push, and whether all went well.
  pub after_pop : User → ℕ × Q → Bool × Q
  after_pop user (ret, q) =
      let (ret', q') = queue.push q user in if ret == 0 then (ret' == 0, q') else (false, q)

  pub after_push : User → ℕ × Q → Bool × Q
  after_push user (ret, q) = if ret == 1 then after_pop user (queue.pop q) else (true, q)

  -- The search for the user, and what is done if it is not found.
  pub add_user : Q → User → Bool × Q
  add_user q user = if queue.includes q user then (true, q) else after_push user (queue.push q user)

  -- Where the user could not be added the thread returns with the mutex locked.
  pub broadcast : ℕ → List ℕ → Bool → Bool × Q → List Sending → Status × World Q
  broadcast sfd buffer unlock_fine (true, q) sent = (
    loops,
    record {
      queue = q;
      locked = not unlock_fine;
      sent = queue.every (active_user_send_func sfd buffer) q sent;
    },
  )
  broadcast sfd buffer unlock_fine (false, q) sent =
      (returns 1, record { queue = q; locked = true; sent = sent })

  -- A datagram, from the lock on.
  pub with_lock : ℕ → Turn → List ℕ → User → World Q → Status × World Q
  with_lock sfd t buffer user w =
      if not t.lock_fine
      then (returns 1, w)
      else if w.locked
      then (blocks, w)
      else broadcast sfd buffer t.unlock_fine (add_user w.queue user) w.sent

  pub receive : ℕ → Turn → Receipt → World Q → Status × World Q
  receive sfd t again w = (loops, w)
  receive sfd t interrupted w = (loops, w)
  receive sfd t broken w = (returns 1, w)
  receive sfd t (packet buffer addr len) w =
      with_lock sfd t buffer (record { addr = take len addr; addr_len = len }) w

  pub one_turn : ℕ → Turn → World Q → Status × World Q
  one_turn sfd t w = if t.run then receive sfd t t.receipt w else (returns 0, w)

  -- rw_loop_func, as long as turns are given.
  pub rw_loop_func : ℕ → List Turn → World Q → Status × World Q
  rw_loop_func sfd [] w = (loops, w)
  rw_loop_func sfd (t ∷ ts) w = after (one_turn sfd t w) (rw_loop_func sfd ts)

-- What the system answers for one struct of the list.
pub record Answers : Type 0 where
  pub sock : Option ℕ
  pub v6only : Bool
  pub bound : Bool
  pub timeout_set : Bool

-- The loop that creates the sockets and binds them, on Linux: for IPv6 without dual stack.
pub bind_loop : (ℕ → Answers) → ℕ → List Addrinfo → List ℕ → List ℕ × List Call
bind_loop system n [] sfd_arr = (sfd_arr, [])
bind_loop system n (ca ∷ rest) sfd_arr =
    let single = not (ca.ai_family == af_inet6) || (system n).v6only in
    bind_sock (system n).sock (single && (system n).bound) (system n).timeout_set sfd_arr
      (bind_loop system (suc n) rest sfd_arr)
      (λ sfd. bind_loop system (suc n) rest (sfd_arr ++ (sfd ∷ [])))

-- What `main` sets up before it reads the arguments.
pub data Resource : Type 0 where
  log_mutex active_users_lock active_users : Resource

-- The calls of `main`, in their order.
pub data Event : Type 0 where
  acquires releases : Resource → Event
  calls : Call → Event

-- What the system answers to `main`. The first four say whether the calls that set up log_mutex,
-- active_users_lock, the signals and the queue give no error.
pub record Host : Type 0 where
  pub log_ready : Bool
  pub lock_ready : Bool
  pub signals_ready : Bool
  pub queue_ready : Bool
  pub getaddrinfo : Text → Option Text → Lookup
  pub answers : ℕ → Answers
  pub threads : ℕ → Bool

pub with_addrinfo : Host → Created → ℕ × List Call
with_addrinfo host (not_created ret freed) = (1, [])
with_addrinfo host (created addr) =
    with_sockets host.threads addr (bind_loop host.answers 0 addr [])

-- From the label active_users_err on.
abbrev pub destroy_mutexes : List Event
destroy_mutexes = releases active_users_lock ∷ releases log_mutex ∷ []

-- From the arguments on. The label args_err stands behind all that gives something back.
pub with_args : Host → Option (Text × List Text) → ℕ × List Event
with_args host none = (1, [])
with_args host (some (port, bind_ips)) =
    let (status, cs) = with_addrinfo host (create_addrinfo (host.getaddrinfo port) bind_ips) in
    (status, map calls cs ++ (releases active_users ∷ destroy_mutexes))

pub with_signals : Host → Option (Text × List Text) → ℕ × List Event
with_signals host args =
    let (status, later) = with_args host args in
    if not host.signals_ready
    then (1, destroy_mutexes)
    else if not host.queue_ready
    then (1, destroy_mutexes)
    else (status, acquires active_users ∷ later)

pub with_mutexes : Host → Option (Text × List Text) → ℕ × List Event
with_mutexes host args =
    let (status, later) = with_signals host args in
    if not host.log_ready
    then (1, [])
    else if not host.lock_ready
    then (1, acquires log_mutex ∷ releases log_mutex ∷ [])
    else (status, acquires log_mutex ∷ acquires active_users_lock ∷ later)

-- main: the exit status and the calls.
pub main : Host → List Text → ℕ × List Event
main host argv = with_mutexes host (parse_args argv)
