-- ===== src/Formatter.antt =====
-- udpchat/src/msg_formatter.c and the sizes of udpchat/src/config.h: the text of a chat message.
pub mod Frame
mod Tests
use csockets.Base.{
  ◌>>=◌, ℕ, zero, suc, ◌+◌, ◌-◌, ◌*◌, ◌/◌, ◌%◌, ◌^◌, ◌≡◌, Bool, ◌&&◌, Option, none, some, List, [],
  ◌∷◌, ◌++◌, ltb, leb, ◌==◌, if◌then◌else◌, length, take, drop, replicate,
}

abbrev pub msg_id_len : ℕ
msg_id_len = 4

abbrev pub msg_f_len : ℕ
msg_f_len = 3

abbrev pub msg_body_len : ℕ
msg_body_len = 127

abbrev pub msg_total_len : ℕ
msg_total_len = 1 + (msg_id_len - 1) + (msg_f_len - 1) + msg_body_len + 0

abbrev pub newline : ℕ
newline = 10

abbrev pub space : ℕ
space = 32

-- The `MIN` macro.
abbrev pub min_macro : ℕ → ℕ → ℕ
min_macro a b = if ltb a b then a else b

-- The two buffers of the thread, which live from call to call.
pub record Buffers : Type 0 where
  pub return_buffer : List ℕ
  pub id_buffer : List ℕ

unfoldable pub initial_buffers : Buffers
initial_buffers = record {
  return_buffer = replicate msg_total_len 0;
  id_buffer = replicate msg_id_len 0;
}

-- `memcpy(&dest[at], src, n)`: undefined outside of either array.
pub memcpy : List ℕ → ℕ → List ℕ → ℕ → Option (List ℕ)
memcpy dest at src n =
    if leb (at + n) (length dest) && leb n (length src)
    then some (take at dest ++ (take n src ++ drop (at + n) dest))
    else none

-- `dest[at] = c`
pub put_char : List ℕ → ℕ → ℕ → Option (List ℕ)
put_char dest at c =
    if ltb at (length dest) then some (take at dest ++ c ∷ drop (suc at) dest) else none

-- The decimal digits of a number below 1000, with no leading zeros, and the padding of "%3".
abbrev digit : ℕ → ℕ
digit n = b'0' + n % 10

pub print3 : ℕ → List ℕ
print3 n =
    if ltb n 10
    then space ∷ space ∷ digit n ∷ []
    else if ltb n 100
    then space ∷ digit (n / 10) ∷ digit n ∷ []
    else digit (n / 100) ∷ digit (n / 10) ∷ digit n ∷ []

-- The length that is handed to memcpy(3) as a `size_t`.
abbrev pub size_minus_one : ℕ → ℕ
size_minus_one n = (n + 2 ^ 64 - 1) % 2 ^ 64

-- "| " with its terminator.
abbrev pub separator : List ℕ
separator = b'|' ∷ space ∷ 0 ∷ []

-- The writes to the return buffer where there is a body: the id, the separator, `count` bytes of
-- the body, the newline behind them, and the one at the end of the buffer.
pub fill : List ℕ → List ℕ → List ℕ → ℕ → Option (List ℕ)
fill r id_buffer body count = do
  r ← memcpy r 0 id_buffer (msg_id_len - 1)
  r ← memcpy r 3 separator (msg_f_len - 1)
  r ← memcpy r 5 body count
  r ← put_char r (5 + count) newline
  put_char r (msg_total_len - 1) newline

-- `body` is NULL, or an array with what it holds. The first result is the new `*len`.
pub msg_formatter : Buffers → ℕ → ℕ → Option (List ℕ) → ℕ → Option (ℕ × Buffers)
msg_formatter b sender_id receiver_id none len = do
  r ← put_char b.return_buffer (msg_total_len - 1) newline
  some (0, record b { return_buffer = r })
msg_formatter b sender_id receiver_id (some body) len = do
  let id_buffer = print3 (sender_id % 999) ++ 0 ∷ []
  let count = size_minus_one (min_macro len msg_body_len)
  r ← fill b.return_buffer id_buffer body count
  some (6 + count, record { return_buffer = r; id_buffer = id_buffer })
