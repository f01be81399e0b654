-- ===== src/Chat/Shutdown/Occupied.antt =====
-- The table of active users of udpchat/src/main.c while the two threads run.
use csockets.Base.{ℕ, ◌≡◌, Bool, true, arith}
use csockets.Chat.Shutdown.{
  State, clears, shuts, shut_all, joins, closes, closed_all, runs, leaves, wakes_up, passes,
  checked, handles, frees, faults, Step, own, signal, interrupted, poll_failed, ready, arrives,
  broken, fails,
}

-- Once a user is in the table, it never gets empty again.
pub Step-occupied :
    {w : Bool} {n : ℕ} {s t : State} → Step w n s t → s.occupied ≡ true → t.occupied ≡ true
Step-occupied (own (clears e)) o = ground arith
Step-occupied (own (shuts k e lt)) o = ground arith
Step-occupied (own (shut_all k e le)) o = ground arith
Step-occupied (own (joins e f)) o = ground arith
Step-occupied (own (closes k e lt)) o = ground arith
Step-occupied (own (closed_all k e le)) o = ground arith
Step-occupied (own (runs e f)) o = ground arith
Step-occupied (own (leaves e f)) o = ground arith
Step-occupied (own (wakes_up y e f)) o = ground arith
Step-occupied (own (passes k e lt)) o = ground arith
Step-occupied (own (checked k e le)) o = ground arith
Step-occupied (own (handles k b e)) o = ground arith
Step-occupied (own (frees e f)) o = ground arith
Step-occupied (own (faults e f)) o = ground arith
Step-occupied (signal e) o = ground arith
Step-occupied (interrupted e) o = ground arith
Step-occupied (poll_failed e) o = ground arith
Step-occupied (ready e) o = ground arith
Step-occupied (arrives k e lt) o = ground arith
Step-occupied (broken k e lt) o = ground arith
Step-occupied (fails k b e) o = ground arith
