-- ===== src/UdpMsg.antt =====
-- udpmsg/main.old.c: a server that prints the datagrams that it gets. A `struct sockaddr` is its 16
-- bytes; what C leaves undefined is `none`.
pub mod Address
pub mod Trim
pub mod Receiving
pub mod Errors
pub mod Printing
mod Tests
use csockets.Base.{
  ℕ, zero, suc, ◌+◌, ◌-◌, Bool, true, false, ◌&&◌, Option, none, some, List, [], ◌∷◌, ◌++◌, ltb,
  leb, ◌==◌, ◌>>=◌, if◌then◌else◌, length, take, drop, get_elem?, set, replicate,
}
use csockets.Net.{af_inet, af_inet6}

abbrev pub sockaddr_len : ℕ
sockaddr_len = 16

abbrev pub max_packet_size : ℕ
max_packet_size = 1212

abbrev pub newline : ℕ
newline = 10

abbrev pub Text : Type 0
Text = List ℕ

-- "server"
abbrev pub server_mode : Text
server_mode = b's' ∷ b'e' ∷ b'r' ∷ b'v' ∷ b'e' ∷ b'r' ∷ []

-- The result of inet_pton(3): the bytes of the address, a text that is no address of the family, or
-- an error.
pub data Pton : Type 0 where
  address : List ℕ → Pton
  no_address bad_family : Pton

-- The return code of `parse_ip`: -1, 0 or 1.
pub data Parsed : Type 0 where
  invalid ipv4 ipv6 : Parsed

-- A write of some bytes at an offset.
pub put : List ℕ → ℕ → List ℕ → Option (List ℕ)
put memory at bytes =
    if leb (at + length bytes) (length memory)
    then some (take at memory ++ (bytes ++ drop (at + length bytes) memory))
    else none

pub stored : Parsed → Option (List ℕ) → Option (Parsed × List ℕ)
stored code none = none
stored code (some memory) = some (code, memory)

-- The second try of `parse_ip`.
pub parse_ipv6 : Pton → List ℕ → Option (Parsed × List ℕ)
parse_ipv6 (address bytes) addr = stored ipv6 (put addr 8 bytes)
parse_ipv6 no_address addr = some (invalid, addr)
parse_ipv6 bad_family addr = some (invalid, addr)

-- The first try; the second argument is the result of the second call of inet_pton(3).
pub parse_ipv4 : Pton → Pton → List ℕ → Option (Parsed × List ℕ)
parse_ipv4 (address bytes) six addr = stored ipv4 (put addr 4 bytes)
parse_ipv4 no_address six addr = parse_ipv6 six addr
parse_ipv4 bad_family six addr = some (invalid, addr)

-- parse_ip; the first argument is inet_pton(3).
pub parse_ip : (ℕ → Text → Pton) → Text → List ℕ → Option (Parsed × List ℕ)
parse_ip inet_pton ip addr = parse_ipv4 (inet_pton af_inet ip) (inet_pton af_inet6 ip) addr

-- A read of `n` bytes at an offset.
pub read_at : List ℕ → ℕ → ℕ → Option (List ℕ)
read_at memory at n = if leb (at + n) (length memory) then some (take n (drop at memory)) else none

-- The test of the trimming loop on a byte: `again` is the rest of the loop.
pub while_newline : Option ℕ → Option (List ℕ) → List ℕ → Option (List ℕ)
while_newline none again buffer = none
while_newline (some c) again buffer = if c == newline then again else some buffer

-- `for (size_t n = packet_len - 1; buffer[n] == '\n'; --n)`: below 0 the index is the largest
-- `size_t`, where the buffer has no byte.
pub trim_loop : ℕ → List ℕ → Option (List ℕ)
trim_loop zero buffer = while_newline (get_elem? buffer zero) none buffer
trim_loop (suc n) buffer =
    while_newline (get_elem? buffer (suc n)) (trim_loop n (set buffer (suc n) 0)) buffer

-- The result of recvfrom(2): the bytes, what it leaves in `clientaddr`, and the length of the whole
-- address; or ECONNREFUSED, or another error.
pub data Received : Type 0 where
  datagram : List ℕ → List ℕ → ℕ → Received
  refused broken : Received

-- The variables of `server` that live from turn to turn.
pub record State : Type 0 where
  pub buffer : List ℕ
  pub ipaddr : Text
  pub errcount : ℕ

-- What is printed on the standard output, a line each: that the datagram is empty; the family of the
-- sender; or the sender, the length and the text.
pub data Line : Type 0 where
  empty from_ipv6 from_ipv4 : Line
  message : Text → ℕ → Text → Line

-- How a turn ends: in the next one, with the lines it printed, or at the label recv_err.
pub data Turn : Type 0 where
  goes : State → List Line → Turn
  stops undefined : Turn

-- What printf(3) shows for "%s".
pub c_string : List ℕ → Text
c_string [] = []
c_string (c ∷ cs) = let rest = c_string cs in if c == 0 then [] else c ∷ rest

-- inet_ntop(3) writes the text, or leaves the buffer as it is.
pub or_stale : Option Text → Text → Text
or_stale none ipaddr = ipaddr
or_stale (some text) ipaddr = text

-- The sender's address in `ipaddr`, and the line that is printed for its family.
pub show_ip : (ℕ → List ℕ → Option Text) → List ℕ → ℕ → Text → Option (Text × Line)
show_ip inet_ntop clientaddr clientaddr_len ipaddr =
    if leb 28 clientaddr_len
    then (read_at clientaddr 8 16 >>= λ a. some (or_stale (inet_ntop af_inet6 a) ipaddr, from_ipv6))
    else read_at clientaddr 4 4 >>= λ a. some (or_stale (inet_ntop af_inet a) ipaddr, from_ipv4)

-- `buffer[packet_len] = '\0'`
pub terminate : List ℕ → ℕ → Option (List ℕ)
terminate buffer n = if ltb n (length buffer) then some (set buffer n 0) else none

pub print_packet : State → ℕ → Option (Text × Line) → Option (List ℕ) → Turn
print_packet s packet_len none trimmed = undefined
print_packet s packet_len (some (ip, family)) none = undefined
print_packet s packet_len (some (ip, family)) (some b) =
    goes (record s { buffer = b; ipaddr = ip }) (family ∷ message ip packet_len (c_string b) ∷ [])

-- recvfrom(2) writes the packet to the start of the buffer.
pub received : List ℕ → List ℕ → List ℕ
received packet buffer = packet ++ drop (length packet) buffer

-- One turn of `while (1)`.
pub turn : (ℕ → List ℕ → Option Text) → State → Received → Turn
turn inet_ntop s refused =
    if ltb 3 (s.errcount + 1) then stops else goes (record s { errcount = s.errcount + 1 }) []
turn inet_ntop s broken = stops
turn inet_ntop s (datagram [] clientaddr clientaddr_len) = goes s (empty ∷ [])
turn inet_ntop s (datagram (c ∷ cs) clientaddr clientaddr_len) =
    let packet_len = length (c ∷ cs) in
    print_packet s packet_len (show_ip inet_ntop clientaddr clientaddr_len s.ipaddr)
      (terminate (received (c ∷ cs) s.buffer) packet_len >>= trim_loop (packet_len - 1))

-- How `server` stands: it returned a code, waits in recvfrom(2), or did what C leaves undefined.
pub data Outcome : Type 0 where
  returns : ℕ → Outcome
  waits : State → Outcome
  crashed : Outcome

pub after : Turn → (State → Outcome × List Line) → Outcome × List Line
after (goes s lines) next = let (o, later) = next s in (o, lines ++ later)
after stops next = (returns 1, [])
after undefined next = (crashed, [])

-- The loop of `server`, as long as packets are given.
pub server_loop : (ℕ → List ℕ → Option Text) → List Received → State → Outcome × List Line
server_loop inet_ntop [] s = (waits s, [])
server_loop inet_ntop (r ∷ rs) s = after (turn inet_ntop s r) (server_loop inet_ntop rs)

abbrev pub fresh : State
fresh = record { buffer = replicate max_packet_size 0; ipaddr = []; errcount = 0 }

-- server: the results of socket(2) and bind(2), and what arrives.
pub server : (ℕ → List ℕ → Option Text) → Bool → Bool → List Received → Outcome × List Line
server inet_ntop created bound rs =
    let run = server_loop inet_ntop rs fresh in
    if created then (if bound then run else (returns 1, [])) else (returns 1, [])

pub same_text : Text → Text → Bool
same_text [] [] = true
same_text [] (d ∷ ds) = false
same_text (c ∷ cs) [] = false
same_text (c ∷ cs) (d ∷ ds) = c == d && same_text cs ds

-- htons(PORT) and the family, in memory.
pub fill_in : ℕ → List ℕ → Option (List ℕ)
fill_in family addr = put addr 2 (0x27 ∷ 0x24 ∷ []) >>= λ a. put a 0 (family ∷ 0 ∷ [])

-- The address and its length and family that `server` is called with, or the exit status.
pub data Command : Type 0 where
  serves : ℕ → List ℕ → ℕ → Command
  exits : ℕ → Command
  faults : Command

pub serve_on : ℕ → ℕ → Option (List ℕ) → Command
serve_on family addr_len none = faults
serve_on family addr_len (some addr) = serves family addr addr_len

pub of_parsed : Option (Parsed × List ℕ) → Command
of_parsed none = faults
of_parsed (some (ipv4, addr)) = serve_on af_inet 16 (fill_in af_inet addr)
of_parsed (some (ipv6, addr)) = serve_on af_inet6 28 (fill_in af_inet6 addr)
of_parsed (some (invalid, addr)) = exits 1

-- main, up to the call of `server`.
pub main : (ℕ → Text → Pton) → List Text → Command
main inet_pton (progname ∷ mode ∷ ip ∷ rest) =
    if same_text server_mode mode
    then of_parsed (parse_ip inet_pton ip (replicate sockaddr_len 0))
    else exits 1
main inet_pton _ = exits 1
