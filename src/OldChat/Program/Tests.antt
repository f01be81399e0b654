-- ===== src/OldChat/Program/Tests.antt =====
-- The earlier version of udpchat from its first thread to its end.
use csockets.Base.{ℕ, ◌+◌, ◌*◌, ◌≤◌, ◌<◌, ◌≡◌, refl, ◌⊎◌, List, [], ◌∷◌, arith}
use csockets.OldChat.{User, add_user, after_push, after_pop}
use csockets.OldChat.Tests.{same, list_queue, list_queue-Fifo, user}
use csockets.OldChat.Threads.{locking, goes, leaves, receives, locks, adds, casts, unlocks}
use csockets.OldChat.Threads.Failure.{failed}
use csockets.OldChat.Program.{
  Program, init, HasEnded, creates, all_created, signal, stops, all_stopped, joins, all_joined,
  finished, Step, closes, all_closed, frees, destroys, of_main, of_thread, Reach, start, later,
}
use csockets.OldChat.Program.Shutdown.{given_back, Reach-given_back}
use csockets.OldChat.Program.Ending.{Unprompted, beyond, Reach-finishes}
use csockets.OldChat.Program.Hang.{add_fails-hangs}

abbrev socket : ℕ → ℕ
socket i = i + 4

-- One thread relays one message.
abbrev relayed : (s : Program (List User)) × Reach (list_queue 2) socket 1 (init []) s
unfolding add_user after_push after_pop
relayed = (
  _,
  later
      (later
        (later
          (later
            (later
              (later
                (later (later start (of_main (creates 0 refl (omega arith) (omega arith))))
                  (of_main (all_created 1 refl (omega arith))))
                (of_thread (goes 0 refl) (omega arith) refl))
              (of_thread (receives 0 (97 ∷ []) (2 ∷ 5 ∷ []) 2 refl) (omega arith) tt))
            (of_thread (locks 0 (97 ∷ []) (user 5) refl refl) (omega arith) tt))
          (of_thread (adds 0 (97 ∷ []) (user 5) (user 5 ∷ []) refl refl) (omega arith) tt))
        (of_thread (casts 0 (97 ∷ []) refl) (omega arith) tt))
      (of_thread (unlocks 0 refl) (omega arith) tt),
)

-- Then the signal comes, and the flag is cleared.
abbrev told : (s : Program (List User)) × Reach (list_queue 2) socket 1 (init []) s
unfolding add_user after_push after_pop
told = (
  _,
  later (later (later (relayed.1) (of_main (signal refl))) (of_main (stops 0 refl (omega arith))))
      (of_main (all_stopped 1 refl (omega arith))),
)

abbrev ended_run : (s : Program (List User)) × Reach (list_queue 2) socket 1 told.0 s
unfolding add_user after_push after_pop
ended_run = (
  _,
  later
      (later
        (later
          (later
            (later
              (later (later start (of_thread (leaves 0 refl) (omega arith) refl))
                (of_main (joins 0 refl (omega arith) (0, refl))))
              (of_main (all_joined 1 refl (omega arith))))
            (of_main (closes 0 refl (omega arith))))
          (of_main (all_closed 1 refl (omega arith))))
        (of_main (frees refl)))
      (of_main (destroys refl)),
)

abbrev whole_run : Reach (list_queue 2) socket 1 (init []) ended_run.0
unfolding add_user after_push after_pop
whole_run = beyond (list_queue 2) socket told.1 ended_run.1

Reach-finishes_example :
    (7 ≤ 8 * 1 + 4)
    × ((ended_run.0.main ≡ finished)
        ⊎ ((u : Program (List User)) × (st : Step (list_queue 2) socket 1 ended_run.0 u)
            × Unprompted (list_queue 2) socket st))
unfolding add_user after_push after_pop
Reach-finishes_example =
    Reach-finishes (list_queue 2) socket same 2 (λ q. q) (list_queue-Fifo 2) (omega arith)
      (omega arith) refl told.1 tt ended_run.1 refl

Reach-given_back_example :
    (given_back 1 ended_run.0.main ≡ 0) ⊎ ((i : ℕ) → i < 1 → HasEnded (ended_run.0.threads.pc i))
unfolding add_user after_push after_pop
Reach-given_back_example = Reach-given_back (list_queue 2) socket (omega arith) whole_run

-- A queue with no room: thread 1 has the mutex, and thread 0 waits for it.
abbrev before_failure : (s : Program (List User)) × Reach (list_queue 0) socket 2 (init []) s
before_failure = (
  _,
  later
      (later
        (later
          (later
            (later
              (later
                (later (later start (of_main (creates 0 refl (omega arith) (omega arith))))
                  (of_main (creates 1 refl (omega arith) (omega arith))))
                (of_main (all_created 2 refl (omega arith))))
              (of_thread (goes 0 refl) (omega arith) refl))
            (of_thread (goes 1 refl) (omega arith) refl))
          (of_thread (receives 0 (97 ∷ []) (2 ∷ 5 ∷ []) 2 refl) (omega arith) tt))
        (of_thread (receives 1 (98 ∷ []) (2 ∷ 6 ∷ []) 2 refl) (omega arith) tt))
      (of_thread (locks 1 (98 ∷ []) (user 6) refl refl) (omega arith) tt),
)

abbrev behind_failure : Program (List User)
behind_failure = record before_failure.0 { threads = failed before_failure.0.threads 1 [] }

-- `main` gets its signal and waits for the threads.
abbrev stuck_end : (s : Program (List User)) × Reach (list_queue 0) socket 2 behind_failure s
stuck_end = (
  _,
  later
      (later (later (later start (of_main (signal refl))) (of_main (stops 0 refl (omega arith))))
        (of_main (stops 1 refl (omega arith))))
      (of_main (all_stopped 2 refl (omega arith))),
)

add_fails-hangs_example :
    (stuck_end.0.threads.pc 0 ≡ locking (97 ∷ []) (user 5)) × (given_back 2 stuck_end.0.main ≡ 0)
unfolding add_user after_push after_pop
add_fails-hangs_example =
    add_fails-hangs (list_queue 0) socket (omega arith) 1 0 (98 ∷ []) (97 ∷ []) (user 6) (user 5) []
      before_failure.1 refl refl refl stuck_end.1 refl
