-- ===== src/Chat/Callbacks.antt =====
-- What the callbacks of udpchat/src/main.c change: the datagrams sent and the formatter's buffers.
pub mod Broadcast
use Prim.Native.Char.{code}
use Prim.Native.String.{String}
use csockets.Base.{
  ℕ, zero, suc, ◌+◌, Bool, Option, none, some, List, [], ◌∷◌, ◌++◌, ◌==◌, if◌then◌else◌, ◌>>=◌,
  take, length,
}
use csockets.Net.{Storage}
use csockets.Heap.{Info}
use csockets.Formatter.{Buffers, initial_buffers, msg_formatter}

-- One datagram that is handed to sendto(2).
pub record Packet : Type 0 where
  pub fd : ℕ
  pub payload : List ℕ
  pub addr : Storage
  pub addr_len : ℕ

abbrev pub packet_to : Info → List ℕ → Packet
packet_to u payload = record {
  fd = u.recv_fd;
  payload = payload;
  addr = u.addr;
  addr_len = u.addr_len;
}

-- The datagrams so far, the latest last. A callback that does what C leaves undefined gives `none`.
pub record World : Type 0 where
  pub buffers : Buffers
  pub sent : List Packet

abbrev codes : String → List ℕ
codes String.[] = []
codes (String.◌∷◌ c s) = code c ∷ codes s

abbrev pub timeout_str : List ℕ
timeout_str = codes "TIMEOUT: please send any message to join again." ++ 0 ∷ []

abbrev pub timeout_count : ℕ
timeout_count = 3

abbrev pub send : World → Info → ℕ → World
send w u len = record w { sent = w.sent ++ packet_to u (take len w.buffers.return_buffer) ∷ [] }

-- sendall_func
pub sendall_func :
    (sender : Info) (buffer : List ℕ) (buffer_len : ℕ) → Info → Option World → Option World
sendall_func sender buffer buffer_len u world = do
  w ← world
  (len, b) ←
      if u.id == sender.id
      then msg_formatter w.buffers sender.id u.id (some buffer) buffer_len
      else msg_formatter w.buffers sender.id u.id (some buffer) buffer_len
  some (send (record w { buffers = b }) u len)

-- The rounds that are left of the loop of `timeout_func`, which ends early if sendto(2) fails.
pub timeout_loop : (List Packet → Bool) → ℕ → Info → ℕ → World → World
timeout_loop accepts zero u len w = w
timeout_loop accepts (suc k) u len w =
    let w' = send w u len in
    let rest = timeout_loop accepts k u len w' in if accepts w'.sent then rest else w'

-- timeout_func
pub timeout_func : (List Packet → Bool) → Info → Option World → Option World
timeout_func accepts u world = do
  w ← world
  (len, b) ← msg_formatter w.buffers 0 u.id (some timeout_str) (length timeout_str)
  some (timeout_loop accepts timeout_count u len (record w { buffers = b }))
