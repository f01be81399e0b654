-- ===== src/UdpEcho/Threads.antt =====
-- The threads of udpecho/main.c side by side, as a relation between states: `main` from its first
-- pthread_create on, for `n` sockets, and a thread with `rw_loop_func` for each.
pub mod Ending
pub mod Invariant
pub mod Moves
pub mod Order
mod Tests
use csockets.Base.{ℕ, suc, ◌≤◌, ◌<◌, ◌≡◌, Bool, true, false, update}
use csockets.Chat.Master.{max_bind_count}

-- Where `main` stands: in the loop that creates threads, in sigwait(3), in the loop that clears the
-- flags, in the one that joins, in the one that closes, or behind it.
pub data MainPc : Type 0 where
  creating stopping joining closing : ℕ → MainPc
  waiting finished : MainPc

-- Where a thread stands: not created, before the test of its flag, in recvfrom(2), before sendto(2)
-- with a datagram, or at its return.
pub data Pc : Type 0 where
  absent testing receiving replying ended : Pc

-- `len` is children_len, and `run i` and `pc i` are the flag of thread `i` and where it stands.
pub record State : Type 0 where
  pub main : MainPc
  pub len : ℕ
  pub run : ℕ → Bool
  pub pc : ℕ → Pc

abbrev pub init : State
init = record { main = creating 0; len = 0; run = λ i. false; pc = λ i. absent }

-- What a thread does next on its own, with no datagram, signal or error: a socket has a timeout, so
-- recvfrom(2) ends.
pub data Own (n : ℕ) (s : State) : State → Type 0 where
  creates :
      (k : ℕ)
      → s.main ≡ creating k
      → k < n
      → k < max_bind_count
      → Own n s (record {
        main = creating (suc k);
        len = suc s.len;
        run = update s.run k true;
        pc = update s.pc k testing;
      })
  uncounted :
      (k : ℕ)
      → s.main ≡ creating k
      → k < n
      → max_bind_count ≤ k
      → Own n s (record s { main = waiting; run = update s.run k true; pc = update s.pc k testing })
  all_created : (k : ℕ) → s.main ≡ creating k → n ≤ k → Own n s (record s { main = waiting })
  stops :
      (k : ℕ)
      → s.main ≡ stopping k
      → k < s.len
      → Own n s (record s { main = stopping (suc k); run = update s.run k false })
  all_stopped : (k : ℕ) → s.main ≡ stopping k → s.len ≤ k → Own n s (record s { main = joining 0 })
  joins :
      (k : ℕ)
      → s.main ≡ joining k
      → k < s.len
      → s.pc k ≡ ended
      → Own n s (record s { main = joining (suc k) })
  all_joined : (k : ℕ) → s.main ≡ joining k → s.len ≤ k → Own n s (record s { main = closing 0 })
  closes : (k : ℕ) → s.main ≡ closing k → k < n → Own n s (record s { main = closing (suc k) })
  all_closed : (k : ℕ) → s.main ≡ closing k → n ≤ k → Own n s (record s { main = finished })
  goes :
      (i : ℕ)
      → s.pc i ≡ testing
      → s.run i ≡ true
      → Own n s (record s { pc = update s.pc i receiving })
  leaves :
      (i : ℕ) → s.pc i ≡ testing → s.run i ≡ false → Own n s (record s { pc = update s.pc i ended })
  times_out : (i : ℕ) → s.pc i ≡ receiving → Own n s (record s { pc = update s.pc i testing })
  replies : (i : ℕ) → s.pc i ≡ replying → Own n s (record s { pc = update s.pc i testing })

-- Every step: these, and a thread that is not created, a signal, a datagram, and errors of recvfrom(2)
-- and sendto(2).
pub data Step (n : ℕ) (s : State) : State → Type 0 where
  own : {t : State} → Own n s t → Step n s t
  not_created : (k : ℕ) → s.main ≡ creating k → k < n → Step n s (record s { main = stopping 0 })
  signal : s.main ≡ waiting → Step n s (record s { main = stopping 0 })
  arrives : (i : ℕ) → s.pc i ≡ receiving → Step n s (record s { pc = update s.pc i replying })
  broken : (i : ℕ) → s.pc i ≡ receiving → Step n s (record s { pc = update s.pc i ended })
  not_sent : (i : ℕ) → s.pc i ≡ replying → Step n s (record s { pc = update s.pc i ended })

pub data Reach (n : ℕ) : State → Type 0 where
  start : Reach n init
  later : {s t : State} → Reach n s → Step n s t → Reach n t
