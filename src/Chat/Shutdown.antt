-- ===== src/Chat/Shutdown.antt =====
-- The two threads of udpchat/src/main.c side by side: `main` from pthread_create on, which waits for a
-- signal and winds up, and `master_func`. They share the flag `run` and `n` sockets. `wakes` says
-- whether shutdown(2) ends a poll(2) on a socket that has no peer, also where it gives ENOTCONN.
pub mod Occupied
pub mod Order
pub mod Ending
mod Tests
use csockets.Base.{ℕ, zero, suc, ◌+◌, ◌≤◌, ◌<◌, ◌≡◌, Bool, true, false, ◌||◌}

-- Where `main` stands: in sigwait(3), before it clears `run`, before shutdown(2) of a socket, in
-- pthread_join, before close(2) of a socket, or behind the loop that closes; or the program was killed.
pub data MainPc : Type 0 where
  waiting clearing joining finished killed : MainPc
  shutting closing : ℕ → MainPc

-- Where `master_func` stands: before the test of `run`, in poll(2), before the switch on an entry of
-- the poll array, in `msg_handle` for an entry, before user_table_free, at its return, or at an access
-- to NULL.
pub data MasterPc : Type 0 where
  testing polling freeing ended faulted : MasterPc
  checking handling : ℕ → MasterPc

pub record State : Type 0 where
  pub main : MainPc
  pub master : MasterPc
  pub run : Bool
  -- The table of active users has a user; its last user is never removed.
  pub occupied : Bool
  -- How many sockets are shut down.
  pub shut : ℕ

abbrev pub init : State
init = record { main = waiting; master = testing; run = true; occupied = false; shut = 0 }

-- How many sockets are closed.
abbrev pub closed : ℕ → MainPc → ℕ
closed n (closing k) = k
closed n finished = n
closed n _ = 0

-- What a thread does next on its own, with no datagram, signal or error: a socket that is shut down
-- ends poll(2), where `wakes` holds, and its entry, with more than one event, matches no case of the
-- switch. `msg_handle` puts the sender into the table or does not get that far. user_table_free follows
-- NULL on an empty table, which ends the whole program.
pub data Own (wakes : Bool) (n : ℕ) (s : State) : State → Type 0 where
  clears : s.main ≡ clearing → Own wakes n s (record s { main = shutting 0; run = false })
  shuts :
      (k : ℕ)
      → s.main ≡ shutting k
      → k < n
      → Own wakes n s (record s { main = shutting (suc k); shut = s.shut + 1 })
  shut_all : (k : ℕ) → s.main ≡ shutting k → n ≤ k → Own wakes n s (record s { main = joining })
  joins : s.main ≡ joining → s.master ≡ ended → Own wakes n s (record s { main = closing 0 })
  closes :
      (k : ℕ) → s.main ≡ closing k → k < n → Own wakes n s (record s { main = closing (suc k) })
  closed_all : (k : ℕ) → s.main ≡ closing k → n ≤ k → Own wakes n s (record s { main = finished })
  runs : s.master ≡ testing → s.run ≡ true → Own wakes n s (record s { master = polling })
  leaves : s.master ≡ testing → s.run ≡ false → Own wakes n s (record s { master = freeing })
  wakes_up :
      wakes ≡ true
      → s.master ≡ polling
      → 1 ≤ s.shut
      → Own wakes n s (record s { master = checking 0 })
  passes :
      (k : ℕ)
      → s.master ≡ checking k
      → k < n
      → Own wakes n s (record s { master = checking (suc k) })
  checked : (k : ℕ) → s.master ≡ checking k → n ≤ k → Own wakes n s (record s { master = testing })
  handles :
      (k : ℕ) (seated : Bool)
      → s.master ≡ handling k
      → Own wakes n s (record s { master = checking (suc k); occupied = s.occupied || seated })
  frees : s.master ≡ freeing → s.occupied ≡ true → Own wakes n s (record s { master = ended })
  faults :
      s.master ≡ freeing
      → s.occupied ≡ false
      → Own wakes n s (record s { main = killed; master = faulted })

-- Every step: these, and a signal, the results of poll(2), a datagram at an entry, POLLERR or POLLHUP
-- there, and an error in `msg_handle`.
pub data Step (wakes : Bool) (n : ℕ) (s : State) : State → Type 0 where
  own : {t : State} → Own wakes n s t → Step wakes n s t
  signal : s.main ≡ waiting → Step wakes n s (record s { main = clearing })
  interrupted : s.master ≡ polling → Step wakes n s (record s { master = testing })
  poll_failed : s.master ≡ polling → Step wakes n s (record s { master = freeing })
  ready : s.master ≡ polling → Step wakes n s (record s { master = checking 0 })
  arrives :
      (k : ℕ) → s.master ≡ checking k → k < n → Step wakes n s (record s { master = handling k })
  broken : (k : ℕ) → s.master ≡ checking k → k < n → Step wakes n s (record s { master = freeing })
  fails :
      (k : ℕ) (seated : Bool)
      → s.master ≡ handling k
      → Step wakes n s (record s { master = freeing; occupied = s.occupied || seated })

pub data Reach (wakes : Bool) (n : ℕ) : State → Type 0 where
  start : Reach wakes n init
  later : {s t : State} → Reach wakes n s → Step wakes n s t → Reach wakes n t
