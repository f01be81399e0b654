-- ===== src/UdpEcho/Loop/Echo.antt =====
-- What a thread of udpecho/main.c sends back.
use csockets.Base.{
  ℕ, ◌≤◌, ◌≡◌, refl, true, false, Option, none, some, List, [], ◌∷◌, ◌++◌, length, All, take,
  take_whole, take_exact,
}
use csockets.Net.{Storage}
use csockets.UdpEcho.Loop.{
  max_datagram_size, storage_len, packet, again, broken, Turn, turn, Reply, Status, returns, loops,
  Locals, reset, receive, reply, rw_loop, locals, rw_loop_func,
}

-- The sender's address fits into a `struct sockaddr_storage`, which is made for every kind.
abbrev pub IsAddressed : Turn → Type 0
IsAddressed (turn run (packet datagram from) sent) = length from ≤ storage_len
IsAddressed (turn run _ sent) = Unit {0}

-- What a turn ends the thread with, if it does: the flag is cleared, or a call failed.
abbrev pub stops_with : Turn → Option ℕ
stops_with (turn false receipt sent) = some 0
stops_with (turn true again sent) = none
stops_with (turn true broken sent) = some 1
stops_with (turn true (packet datagram from) true) = none
stops_with (turn true (packet datagram from) false) = some 1

abbrev pub unless_stopped : {A : Type 0} → Option ℕ → (ℕ → A) → A → A
unless_stopped none stop go = go
unless_stopped (some n) stop go = stop n

-- How the thread stands after these turns.
abbrev pub fate : List Turn → Status
fate [] = loops
fate (t ∷ ts) = unless_stopped (stops_with t) returns (fate ts)

-- The turns up to the first one that ends the thread, and this one.
abbrev pub lived : List Turn → List Turn
lived [] = []
lived (t ∷ ts) = t ∷ unless_stopped (stops_with t) (λ n. []) (lived ts)

-- The datagram of a turn where the flag is set, as much of it as fits into the buffer, to its sender.
abbrev pub echo : Turn → List Reply
echo (turn true (packet datagram from) sent) = (take max_datagram_size datagram, from) ∷ []
echo _ = []

abbrev pub echoes : List Turn → List Reply
echoes [] = []
echoes (t ∷ ts) = echo t ++ echoes ts

reply-receive :
    (datagram : List ℕ) (from : Storage) (v : Locals)
    → length from ≤ storage_len
    → reply (receive datagram from (reset v)) ≡ (take max_datagram_size datagram, from)
unfolding reply receive reset
reply-receive datagram from v le =
    rw (take_whole storage_len from le, take_exact (length from) from _ refl)
      (rw (take_exact _ (take max_datagram_size datagram) _ refl) refl)

rw_loop-echoes :
    (ts : List Turn) (v : Locals) → All IsAddressed ts → rw_loop ts v ≡ (fate ts, echoes (lived ts))
unfolding rw_loop
rw_loop-echoes [] v h = refl
rw_loop-echoes (turn false receipt sent ∷ ts) v h = refl
rw_loop-echoes (turn true again sent ∷ ts) v h = rw_loop-echoes ts (reset v) h.1
rw_loop-echoes (turn true broken sent ∷ ts) v h = refl
rw_loop-echoes (turn true (packet datagram from) true ∷ ts) v h =
    rw (rw_loop-echoes ts (receive datagram from (reset v)) h.1, reply-receive datagram from v h.0)
      refl
rw_loop-echoes (turn true (packet datagram from) false ∷ ts) v h =
    rw (reply-receive datagram from v h.0) refl

-- Where every sender's address fits into a `struct sockaddr_storage`: from its start on, whatever
-- arrives and fails, the thread hands each datagram that it gets, cut to the 2048 bytes of the buffer,
-- to sendto(2) with the whole address of its sender, once and in order, and nothing of an earlier
-- datagram or address. This goes on until a turn where the flag is cleared, which ends it with 0, or
-- where a call fails with no timeout, which ends it with 1; with no such turn it is still in its loop.
pub rw_loop_func-echoes :
    (ts : List Turn) → All IsAddressed ts → rw_loop_func ts ≡ (fate ts, echoes (lived ts))
unfolding rw_loop_func
rw_loop_func-echoes ts h = rw_loop-echoes ts locals h
