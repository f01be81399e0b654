-- ===== src/TcpEcho.antt =====
-- tcpEchoServer/src/main.c: a server that sends 255 bytes back to each client, one after the other.
pub mod Reading
pub mod Serving
pub mod Stalls
mod Tests
use csockets.Base.{
  ℕ, zero, suc, ◌+◌, ◌-◌, ◌^◌, Bool, true, false, Option, none, some, List, [], ◌∷◌, ◌++◌, ltb, leb,
  ◌==◌, if◌then◌else◌, length, drop,
}

-- LEN
abbrev pub len : ℕ
len = 255

-- The largest `int`.
abbrev pub int_max : ℕ
int_max = 2 ^ 31 - 1

-- The result of read(2): the bytes read, which are none at the end of the stream, or `failed n` for
-- the number -(n + 1).
pub data Read : Type 0 where
  got : List ℕ → Read
  failed : ℕ → Read

-- How the loop of `client_handle` stands: its buffer is filled, it returned because of an error, it
-- waits for one more result of read(2) with so many bytes left, or it did what C leaves undefined.
pub data Progress : Type 0 where
  filled : List ℕ → Progress
  gives_up undefined : Progress
  waits : ℕ → Progress

-- read(2) writes to the start of the buffer.
pub overwrite : List ℕ → List ℕ → Option (List ℕ)
overwrite buffer bytes =
    if leb (length bytes) (length buffer) then some (bytes ++ drop (length bytes) buffer) else none

-- What follows a write to the buffer.
pub with_buffer : Option (List ℕ) → (List ℕ → Progress) → Progress
with_buffer none next = undefined
with_buffer (some b) next = next b

-- `while(bytesRemaining > 0)`, as long as results of read(2) are given.
pub read_loop : ℕ → List ℕ → List Read → Progress
read_loop zero buffer reads = filled buffer
read_loop (suc k) buffer [] = waits (suc k)
read_loop (suc k) buffer (got bytes ∷ reads) =
    with_buffer (overwrite buffer bytes) (λ b. read_loop (suc k - length bytes) b reads)
read_loop (suc k) buffer (failed n ∷ reads) =
    let rest = read_loop (suc (suc k)) buffer reads in
    if ltb 0 n then gives_up else if suc k == int_max then undefined else rest

-- How a call of `client_handle` ends, if it does: with the bytes handed to write(2), if any.
pub data Handled : Type 0 where
  returns : Option (List ℕ) → Handled
  hangs : ℕ → Handled
  breaks : Handled

pub send_back : Progress → Handled
send_back (filled buffer) = returns (some buffer)
send_back gives_up = returns none
send_back undefined = breaks
send_back (waits k) = hangs k

-- client_handle, on a buffer that holds anything.
pub client_handle : List ℕ → List Read → Handled
client_handle buffer reads = send_back (read_loop len buffer reads)

-- What the system answers for one client: the result of accept(2), `none` for a negative one, what the
-- buffer on the stack holds, and the results of read(2) on that descriptor.
pub record Client : Type 0 where
  pub clientfd : Option ℕ
  pub buffer : List ℕ
  pub reads : List Read

-- The calls of write(2) and close(2).
pub data Call : Type 0 where
  writes : Option ℕ → List ℕ → Call
  closes : Option ℕ → Call

-- The process exited with a code, waits for read(2), did what C leaves undefined, or is in accept(2).
pub data Outcome : Type 0 where
  exits : ℕ → Outcome
  stuck accepting crashed : Outcome

pub sent : Option ℕ → Option (List ℕ) → List Call
sent fd none = []
sent fd (some bytes) = writes fd bytes ∷ []

-- What follows a call of `client_handle`.
pub after : Option ℕ → Handled → Outcome × List Call → Outcome × List Call
after fd (returns w) later = (later.0, sent fd w ++ (closes fd ∷ later.1))
after fd (hangs k) later = (stuck, [])
after fd breaks later = (crashed, [])

-- `while(1)`, as long as clients are given. A client is handled also where accept(2) failed.
pub accept_loop : List Client → Outcome × List Call
accept_loop [] = (accepting, [])
accept_loop (c ∷ cs) = after c.clientfd (client_handle c.buffer c.reads) (accept_loop cs)

-- socket_v4: the results of socket(2), bind(2) and listen(2), and the clients.
pub socket_v4 : Bool → Bool → Bool → List Client → Outcome × List Call
socket_v4 created bound listening clients =
    let serve = accept_loop clients in
    if created
    then (if bound then (if listening then serve else (exits 1, [])) else (exits 1, []))
    else (exits 1, [])
