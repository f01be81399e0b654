-- ===== src/TcpEcho/Stalls.antt =====
-- When `client_handle` of tcpEchoServer/src/main.c does not return.
use csockets.Base.{
  ℕ, zero, suc, ◌+◌, ◌-◌, ◌≤◌, ◌<◌, ◌≡◌, refl, ap, ◌∙◌, inl, inr, true, false, Option, List, [],
  ◌∷◌, ◌++◌, map, leb, ◌==◌, if◌then◌else◌, length, arith, replicate, Bool-cases,
}
use csockets.TcpEcho.{
  len, int_max, got, failed, undefined, waits, overwrite, with_buffer, read_loop, hangs, breaks,
  send_back, client_handle, Client, stuck, after, accept_loop,
}
use csockets.TcpEcho.Reading.{total, overlay, read_loop-got}

read_loop-eof :
    (n k : ℕ) (buffer : List ℕ) → read_loop (suc k) buffer (replicate n (got [])) ≡ waits (suc k)
unfolding read_loop with_buffer overwrite
read_loop-eof zero k buffer = refl
read_loop-eof (suc n) k buffer =
    let t : leb 0 (length buffer) ≡ true = ground arith in
    let e : suc k - 0 ≡ suc k = omega arith in rw (t, e) (read_loop-eof n k buffer)

-- A client that closes its end after fewer than 255 bytes: however often read(2) reports the end of
-- the stream, `client_handle` asks again, so that the server neither closes this client nor accepts
-- another one.
pub accept_loop-eof :
    (fd : Option ℕ) (buffer : List ℕ) (cs : List (List ℕ)) (n : ℕ) (later : List Client)
    → length buffer ≡ len
    → total cs < len
    → let c : Client = record {
      clientfd = fd;
      buffer = buffer;
      reads = map got cs ++ replicate n (got []);
    } in
      (client_handle buffer c.reads ≡ hangs (len - total cs))
      × (accept_loop (c ∷ later) ≡ (stuck, []))
unfolding accept_loop client_handle send_back after
accept_loop-eof fd buffer cs n later size short =
    let left : len - total cs ≡ suc (len - total cs - 1) = omega arith in
    let e : read_loop len buffer (map got cs ++ replicate n (got [])) ≡ waits (len - total cs) =
      read_loop-got cs len buffer (replicate n (got [])) (omega arith) (omega (arith, size))
      ∙ rw left (read_loop-eof n (len - total cs - 1) (overlay buffer cs)) in
    (rw e, rw e refl)

read_loop-failed :
    (n k : ℕ) (buffer : List ℕ)
    → suc k + n ≤ int_max
    → read_loop (suc k) buffer (replicate n (failed 0)) ≡ waits (suc k + n)
unfolding read_loop
read_loop-failed zero k buffer le = let e : suc k + 0 ≡ suc k = omega arith in rw e refl
read_loop-failed (suc n) k buffer le =
    let more : (suc k == int_max) ≡ false = ground arith in
    let e : suc (suc k) + n ≡ suc k + suc n = omega arith in
    rw more (rw e at (read_loop-failed n (suc k) buffer (omega arith)))

read_loop-overflow :
    (n k : ℕ) (buffer : List ℕ)
    → suc k ≤ int_max
    → int_max < suc k + n
    → read_loop (suc k) buffer (replicate n (failed 0)) ≡ undefined
unfolding read_loop
read_loop-overflow zero k buffer le lt = absurd (omega arith)
read_loop-overflow (suc n) k buffer le lt = elim (Bool-cases (suc k == int_max)) [
  | inl e ↦ rw e refl
  | inr e ↦ rw e (read_loop-overflow n (suc k) buffer (ground arith) (omega arith))
]

-- Where each read(2) fails with -1, as it does for the descriptor of an accept(2) that failed,
-- `client_handle` never returns: the count of the bytes that are left grows by one each time, until
-- the `int` overflows.
pub client_handle-failed :
    (buffer : List ℕ) (n : ℕ)
    → client_handle buffer (replicate n (failed 0))
      ≡ (if leb (len + n) int_max then hangs (len + n) else breaks)
unfolding client_handle send_back
client_handle-failed buffer n = elim (Bool-cases (leb (len + n) int_max)) [
  | inl e ↦ rw e (ap send_back (read_loop-failed n 254 buffer (ground arith)))
  | inr e ↦ rw e (ap send_back (read_loop-overflow n 254 buffer (omega arith) (ground arith)))
]
