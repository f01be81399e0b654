-- ===== src/UdpEcho/Loop.antt =====
-- rw_loop_func of udpecho/main.c, with its buffer and the address of the sender in memory.
pub mod Echo
use csockets.Base.{ℕ, Bool, true, false, List, [], ◌∷◌, ◌++◌, length, take, drop, replicate}
use csockets.Net.{Storage}

abbrev pub max_datagram_size : ℕ
max_datagram_size = 2048

abbrev pub storage_len : ℕ
storage_len = 128

-- What recvfrom(2) finds: a datagram and the sender's address, EAGAIN or EWOULDBLOCK, or another error.
pub data Receipt : Type 0 where
  packet : List ℕ → Storage → Receipt
  again broken : Receipt

-- A turn of the loop: the flag, what recvfrom(2) finds, and whether sendto(2) gives no error.
pub data Turn : Type 0 where
  turn : Bool → Receipt → Bool → Turn

-- What sendto(2) reads: bytes, and those of an address.
abbrev pub Reply : Type 0
Reply = List ℕ × Storage

-- How a run of the thread stands: it returned NULL or NULL+1, or is still in its loop.
pub data Status : Type 0 where
  returns : ℕ → Status
  loops : Status

-- The variables of rw_loop_func that live from turn to turn; ai_family is only logged, and `ai_addr`
-- is the address of `sockaddr`.
pub record Locals : Type 0 where
  pub buffer : List ℕ
  pub sockaddr : Storage
  pub ai_addrlen : ℕ
  pub bytes : ℕ

-- Bytes written to the start of an array.
abbrev pub over : List ℕ → List ℕ → List ℕ
over bytes memory = bytes ++ drop (length bytes) memory

-- What is done at the start of a turn.
pub reset : Locals → Locals
reset v = record v { ai_addrlen = storage_len; sockaddr = replicate storage_len 0 }

-- recvfrom(2) with a datagram: it cuts what it writes to the sizes that it is given, sets ai_addrlen
-- to the length of the whole address, and gives the number of bytes in the buffer.
pub receive : List ℕ → Storage → Locals → Locals
receive datagram from v =
    let kept = take max_datagram_size datagram in
    record {
      buffer = over kept v.buffer;
      sockaddr = over (take v.ai_addrlen from) v.sockaddr;
      ai_addrlen = length from;
      bytes = length kept;
    }

-- What is handed to sendto(2).
pub reply : Locals → Reply
reply v = (take v.bytes v.buffer, take v.ai_addrlen v.sockaddr)

-- The loop, as long as turns are given.
pub rw_loop : List Turn → Locals → Status × List Reply
rw_loop [] v = (loops, [])
rw_loop (turn run receipt sent ∷ ts) v = elim run [
  | false ↦ (returns 0, [])
  | true ↦ elim receipt [
    | again ↦ rw_loop ts (reset v)
    | broken ↦ (returns 1, [])
    | packet datagram from ↦
        let w = receive datagram from (reset v) in
        elim sent [
          | true ↦ let later = rw_loop ts w in (later.0, reply w ∷ later.1)
          | false ↦ (returns 1, reply w ∷ [])
        ]
  ]
]

abbrev pub locals : Locals
locals = record {
  buffer = replicate max_datagram_size 0;
  sockaddr = replicate storage_len 0;
  ai_addrlen = 0;
  bytes = 0;
}

pub rw_loop_func : List Turn → Status × List Reply
rw_loop_func ts = rw_loop ts locals
