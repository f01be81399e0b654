-- ===== src/OldChat/Program.antt =====
-- `main` of udpchat/src/main.old.c and its threads side by side, as a relation between states: from its
-- first pthread_create on, for `n` sockets, with a thread of `rw_loop_func` for each.
pub mod Actors
pub mod Invariant
pub mod Shutdown
mod Tests
pub mod Hang
pub mod Measure
pub mod Ending
use csockets.Base.{ℕ, zero, suc, ◌≤◌, ◌<◌, ◌≡◌, Bool, true, false, update}
use csockets.Chat.Master.{max_bind_count}
use csockets.OldChat.{Queue}
use csockets.OldChat.Threads
use csockets.OldChat.Threads.{
  Pc, ended, System, goes, leaves, again, broken, receives, lock_fails, locks, adds, add_fails,
  casts, unlocks, unlock_fails,
}

-- Where `main` stands: in the loop that creates threads, in sigwait(3), in the loop that clears the
-- flags, in the one that joins, in the one that closes, before chat_user_queue_free, before the calls
-- of pthread_mutex_destroy, or behind them.
pub data MainPc : Type 0 where
  creating stopping joining closing : ℕ → MainPc
  waiting freeing destroying finished : MainPc

-- `len` is children_len, and `run i` the flag of thread `i`; `created` threads exist.
pub record Program (Q : Type 0) : Type 0 where
  pub main : MainPc
  pub len : ℕ
  pub created : ℕ
  pub run : ℕ → Bool
  pub threads : System Q

abbrev pub init : {Q : Type 0} → Q → Program Q
init q = record {
  main = creating 0;
  len = 0;
  created = 0;
  run = λ i. false;
  threads = Threads.init q;
}

abbrev pub HasEnded : Pc → Type 0
HasEnded p = (code : ℕ) × (p ≡ ended code)

-- A step of `main`.
pub data MainStep {Q : Type 0} (n : ℕ) (s : Program Q) : Program Q → Type 0 where
  creates :
      (k : ℕ)
      → s.main ≡ creating k
      → k < n
      → k < max_bind_count
      → MainStep n s (record s {
        main = creating (suc k);
        len = suc s.len;
        created = suc s.created;
        run = update s.run k true;
      })
  uncounted :
      (k : ℕ)
      → s.main ≡ creating k
      → k < n
      → max_bind_count ≤ k
      → MainStep n s
          (record s { main = waiting; created = suc s.created; run = update s.run k true })
  not_created :
      (k : ℕ)
      → s.main ≡ creating k
      → k < n
      → MainStep n s (record s { main = stopping 0; run = update s.run k true })
  all_created : (k : ℕ) → s.main ≡ creating k → n ≤ k → MainStep n s (record s { main = waiting })
  signal : s.main ≡ waiting → MainStep n s (record s { main = stopping 0 })
  stops :
      (k : ℕ)
      → s.main ≡ stopping k
      → k < s.len
      → MainStep n s (record s { main = stopping (suc k); run = update s.run k false })
  all_stopped :
      (k : ℕ) → s.main ≡ stopping k → s.len ≤ k → MainStep n s (record s { main = joining 0 })
  joins :
      (k : ℕ)
      → s.main ≡ joining k
      → k < s.len
      → HasEnded (s.threads.pc k)
      → MainStep n s (record s { main = joining (suc k) })
  all_joined :
      (k : ℕ) → s.main ≡ joining k → s.len ≤ k → MainStep n s (record s { main = closing 0 })
  closes : (k : ℕ) → s.main ≡ closing k → k < n → MainStep n s (record s { main = closing (suc k) })
  all_closed : (k : ℕ) → s.main ≡ closing k → n ≤ k → MainStep n s (record s { main = freeing })
  frees : s.main ≡ freeing → MainStep n s (record s { main = destroying })
  destroys : s.main ≡ destroying → MainStep n s (record s { main = finished })

module _ {Q : Type 0} (queue : Queue Q) (sfd : ℕ → ℕ) where
  -- Which thread takes a step.
  abbrev pub actor : {s t : System Q} → Threads.Step queue sfd s t → ℕ
  actor (goes i e) = i
  actor (leaves i e) = i
  actor (again i e) = i
  actor (broken i e) = i
  actor (receives i buffer addr len e) = i
  actor (lock_fails i buffer user e) = i
  actor (locks i buffer user e free) = i
  actor (adds i buffer user q e f) = i
  actor (add_fails i buffer user q e f) = i
  actor (casts i buffer e) = i
  actor (unlocks i e) = i
  actor (unlock_fails i e) = i

  -- A thread goes on, or leaves its loop, as its flag says.
  abbrev pub Heeds : (ℕ → Bool) → {s t : System Q} → Threads.Step queue sfd s t → Type 0
  Heeds run (goes i e) = run i ≡ true
  Heeds run (leaves i e) = run i ≡ false
  Heeds run _ = Unit {0}

  -- A step of `main`, or of a thread that was created.
  pub data Step (n : ℕ) (s : Program Q) : Program Q → Type 0 where
    of_main : {t : Program Q} → MainStep n s t → Step n s t
    of_thread :
        {t : System Q} (st : Threads.Step queue sfd s.threads t)
        → actor st < s.created
        → Heeds s.run st
        → Step n s (record s { threads = t })

  pub data Reach (n : ℕ) (s : Program Q) : Program Q → Type 0 where
    start : Reach n s s
    later : {t u : Program Q} → Reach n s t → Step n t u → Reach n s u
