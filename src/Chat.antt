-- ===== src/Chat.antt =====
-- udpchat/src/main.c: the thread that receives messages and sends them on to the active users.
pub mod Callbacks
pub mod Handle
pub mod Master
pub mod Relay
pub mod Settled
pub mod Shutdown
pub mod Start
mod Tests
use csockets.Base.{
  ℕ, zero, suc, ◌+◌, ◌*◌, ◌/◌, Bool, true, false, Option, none, some, List, [], ◌∷◌, ◌++◌, ltb,
  ◌==◌, if◌then◌else◌, length,
}
use csockets.Net.{Storage, af_inet, af_inet6, sockaddr_in_len, sockaddr_in6_len}
use csockets.Heap.{Ptr, null, Info, User, user, Heap, Cmd, pure, ◌>>=◌, ◌>>◌}
use csockets.Users.{
  Table, Env, user_table_init, user_table_update, user_table_every, user_table_free,
}
use csockets.Users.Id.{user_calculate_id}
use Callbacks.{World, Packet, sendall_func, timeout_func}

abbrev pub max_msg_size : ℕ
max_msg_size = 2048

abbrev pub actuser_timeout : ℕ
actuser_timeout = 70

-- What the thread takes from the system: the address that malloc(3) returns in a memory, and
-- whether the latest of the datagrams handed to sendto(2) was accepted.
pub record System : Type 0 where
  pub malloc : Heap → Ptr
  pub accepts : List Packet → Bool

pub data Errno : Type 0 where
  eio econnreset eintr etimedout other : Errno

-- The outcome of recvfrom(2): the bytes, the sender's address and its length, or an error.
pub data Received : Type 0 where
  datagram : List ℕ → Storage → ℕ → Received
  failed : Errno → Received

-- A message as the thread meets it: the outcome of recvfrom(2), the clock at the call of time(2)
-- behind it, and the clock at each later call.
pub record Event : Type 0 where
  pub received : Received
  pub now : ℕ
  pub later : ℕ → ℕ

abbrev pub event : Received → ℕ → (ℕ → ℕ) → Event
event r now later = record { received = r; now = now; later = later }

-- The result of the switch on `errno`: 0 where the error is ignored.
pub error_code : Errno → ℕ
error_code eio = 0
error_code econnreset = 0
error_code eintr = 0
error_code etimedout = 0
error_code other = 1

-- The address family that belongs to a socket address of this length.
pub family_of_len : ℕ → Option ℕ
family_of_len len =
    if len == sockaddr_in_len
    then some af_inet
    else if len == sockaddr_in6_len
    then some af_inet6
    else none

-- The user that is created from a received message.
pub sender_of : (sfd now : ℕ) → Storage → (addr_len family : ℕ) → Info
sender_of sfd now addr addr_len family =
    let bare : Info = record {
      addr = addr;
      addr_len = addr_len;
      addr_family = family;
      recv_fd = 0;
      id = 0;
      last_msg = 0;
      last_msg_xs = 0;
    } in
    record bare {
      id = user_calculate_id bare;
      recv_fd = sfd;
      last_msg = now;
      last_msg_xs = now / 2 * 2;
    }

-- What an update takes from the system.
abbrev pub env_at : System → (ℕ → ℕ) → Heap → Env (Option World)
env_at sys time h = record {
  malloc = sys.malloc h;
  time = time;
  timeout_func = timeout_func sys.accepts;
}

module _ (sys : System) (fuel : ℕ) where
  -- What follows once the sender is known: update the table and send the message to every user.
  pub deliver : (ℕ → ℕ) → Info → List ℕ → Table → Cmd (Option World) (ℕ × Table)
  deliver time sender buffer table = do
    (ret, table) ← λ h. user_table_update fuel (env_at sys time h) table (user sender null null) h
    if ret == 1 then pure (0, table) else if ltb 1 ret then pure (1, table) else do
      user_table_every fuel (sendall_func sender buffer (length buffer)) table
      pure (0, table)

  pub handle_received : ℕ → Event → Received → Table → Cmd (Option World) (ℕ × Table)
  handle_received sfd e (failed errno) table = pure (error_code errno, table)
  handle_received sfd e (datagram buffer addr addr_len) table =
      if length buffer == 0 then pure (0, table) else elim (family_of_len addr_len) [
        | none ↦ pure (1, table)
        | some family ↦ deliver e.later (sender_of sfd e.now addr addr_len family) buffer table
      ]

  -- msg_handle
  pub msg_handle : ℕ → Event → Table → Cmd (Option World) (ℕ × Table)
  msg_handle sfd e table = handle_received sfd e e.received table
