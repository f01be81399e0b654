-- ===== src/Chat/Shutdown/Order.antt =====
-- In which order the threads of udpchat/src/main.c give up the sockets.
use csockets.Base.{ℕ, ◌≤◌, ◌<◌, ◌≡◌, refl, ◌⊎◌, inl, inr, Bool, true, false, arith}
use csockets.Chat.Shutdown.{
  MainPc, waiting, clearing, joining, finished, killed, shutting, closing, MasterPc, ended, faulted,
  handling, State, closed, Own, clears, shuts, shut_all, joins, closes, closed_all, runs, leaves,
  wakes_up, passes, checked, handles, frees, faults, Step, own, signal, interrupted, poll_failed,
  ready, arrives, broken, fails, Reach, start, later,
}

-- `run` as `main` leaves it.
abbrev pub Flagged : MainPc → Bool → Type 0
Flagged waiting r = r ≡ true
Flagged clearing r = r ≡ true
Flagged killed r = Unit {0}
Flagged _ r = r ≡ false

-- The thread was joined.
abbrev pub Joined : MainPc → MasterPc → Type 0
Joined (closing k) m = m ≡ ended
Joined finished m = m ≡ ended
Joined _ m = Unit {0}

abbrev pub IsUp : MasterPc → Type 0
IsUp faulted = ⊥
IsUp _ = Unit {0}

-- Only an empty table leads to an access to NULL, which ends both threads.
abbrev pub Fault : MainPc → MasterPc → Bool → Type 0
Fault killed m occupied = (m ≡ faulted) × (occupied ≡ false)
Fault _ m occupied = IsUp m

-- What is shut down where `main` stands.
abbrev pub Down : ℕ → MainPc → ℕ → Type 0
Down n (shutting k) shut = k ≤ shut
Down n joining shut = n ≤ shut
Down n _ shut = Unit {0}

abbrev pub Within : ℕ → MasterPc → Type 0
Within n (handling k) = k < n
Within n _ = Unit {0}

pub record Inv (n : ℕ) (s : State) : Type 0 where
  pub flag : Flagged s.main s.run
  pub joined : Joined s.main s.master
  pub within : Within n s.master
  pub down : Down n s.main s.shut
  pub fault : Fault s.main s.master s.occupied

Own-Inv : {w : Bool} {n : ℕ} {s t : State} → Own w n s t → Inv n s → Inv n t
Own-Inv (clears e) i = ground arith
Own-Inv (shuts k e lt) i = ground arith
Own-Inv (shut_all k e le) i = ground arith
Own-Inv (joins e f) i = ground arith
Own-Inv (closes k e lt) i = ground arith
Own-Inv (closed_all k e le) i = ground arith
Own-Inv (runs e f) i = ground arith
Own-Inv (leaves e f) i = ground arith
Own-Inv (wakes_up w e f) i = ground arith
Own-Inv (passes k e lt) i = ground arith
Own-Inv (checked k e le) i = ground arith
Own-Inv (handles k b e) i = ground arith
Own-Inv (frees e f) i = ground arith
Own-Inv (faults e f) i = ground arith

Step-Inv : {w : Bool} {n : ℕ} {s t : State} → Step w n s t → Inv n s → Inv n t
Step-Inv (own o) i = Own-Inv o i
Step-Inv (signal e) i = ground arith
Step-Inv (interrupted e) i = ground arith
Step-Inv (poll_failed e) i = ground arith
Step-Inv (ready e) i = ground arith
Step-Inv (arrives k e lt) i = ground arith
Step-Inv (broken k e lt) i = ground arith
Step-Inv (fails k b e) i = ground arith

pub Reach-Inv : {w : Bool} {n : ℕ} {s : State} → Reach w n s → Inv n s
Reach-Inv start = record { flag = refl; joined = tt; within = tt; down = tt; fault = tt }
Reach-Inv (later r st) = Step-Inv st (Reach-Inv r)

none_closed :
    (n : ℕ) (s : State) (main : MainPc) (master : MasterPc)
    → s.main ≡ main
    → s.master ≡ master
    → Inv n s
    → (closed n main ≡ 0) ⊎ (master ≡ ended)
none_closed n s waiting master e f i = inl refl
none_closed n s clearing master e f i = inl refl
none_closed n s killed master e f i = inl refl
none_closed n s joining master e f i = inl refl
none_closed n s (shutting k) master e f i = inl refl
none_closed n s (closing k) master e f i = inr (let j = i.joined in rw (f, e) at j)
none_closed n s finished master e f i = inr (let j = i.joined in rw (f, e) at j)

-- In every interleaving of the two threads, no socket is closed before the master thread has ended:
-- it never polls, reads or writes a descriptor that is closed.
pub Reach-closed :
    {w : Bool} {n : ℕ} {s : State} → Reach w n s → (closed n s.main ≡ 0) ⊎ (s.master ≡ ended)
Reach-closed {n} {s} r = none_closed n s s.main s.master refl refl (Reach-Inv r)
