-- ===== src/OldChat/Threads.antt =====
-- The threads of udpchat/src/main.old.c side by side, as a relation between states: each runs
-- `rw_loop_func`, and they share the queue of active users and its mutex.
pub mod Alone
pub mod Exclusion
pub mod Failure
pub mod Order
pub mod Occupied
pub mod Owed
pub mod Progress
mod Tests
use csockets.Base.{ℕ, ◌≡◌, Bool, true, false, Option, none, some, List, [], ◌∷◌, ◌++◌, update, take}
use csockets.Net.{Storage}
use csockets.OldChat.{User, Sending, Queue, active_user_send_func, add_user}

-- Where a thread stands: before the test of its flag, in recvfrom(2), before pthread_mutex_lock with
-- a datagram, behind it, before chat_user_queue_every, before pthread_mutex_unlock, or at its return.
pub data Pc : Type 0 where
  testing receiving unlocking : Pc
  locking adding : List ℕ → User → Pc
  casting : List ℕ → Pc
  ended : ℕ → Pc

-- What the threads share, what was sent, and where each thread stands. `holder` is the thread that
-- has active_users_lock.
pub record System (Q : Type 0) : Type 0 where
  pub queue : Q
  pub holder : Option ℕ
  pub sent : List Sending
  pub pc : ℕ → Pc

-- At the start of the threads.
abbrev pub init : {Q : Type 0} → Q → System Q
init q = record { queue = q; holder = none; sent = []; pc = λ i. testing }

module _ {Q : Type 0} (queue : Queue Q) (sfd : ℕ → ℕ) where
  -- A step of thread `i`, whose socket is `sfd i`. The flag and the results of the system's calls are
  -- any; a mutex that is held is not locked.
  pub data Step (s : System Q) : System Q → Type 0 where
    goes : (i : ℕ) → s.pc i ≡ testing → Step s (record s { pc = update s.pc i receiving })
    leaves : (i : ℕ) → s.pc i ≡ testing → Step s (record s { pc = update s.pc i (ended 0) })
    again : (i : ℕ) → s.pc i ≡ receiving → Step s (record s { pc = update s.pc i testing })
    broken : (i : ℕ) → s.pc i ≡ receiving → Step s (record s { pc = update s.pc i (ended 1) })
    receives :
        (i : ℕ) (buffer : List ℕ) (addr : Storage) (len : ℕ)
        → s.pc i ≡ receiving
        → Step s (record s {
          pc = update s.pc i (locking buffer (record { addr = take len addr; addr_len = len }));
        })
    lock_fails :
        (i : ℕ) (buffer : List ℕ) (user : User)
        → s.pc i ≡ locking buffer user
        → Step s (record s { pc = update s.pc i (ended 1) })
    locks :
        (i : ℕ) (buffer : List ℕ) (user : User)
        → s.pc i ≡ locking buffer user
        → s.holder ≡ none
        → Step s (record s { holder = some i; pc = update s.pc i (adding buffer user) })
    adds :
        (i : ℕ) (buffer : List ℕ) (user : User) (q : Q)
        → s.pc i ≡ adding buffer user
        → add_user queue s.queue user ≡ (true, q)
        → Step s (record s { queue = q; pc = update s.pc i (casting buffer) })
    add_fails :
        (i : ℕ) (buffer : List ℕ) (user : User) (q : Q)
        → s.pc i ≡ adding buffer user
        → add_user queue s.queue user ≡ (false, q)
        → Step s (record s { queue = q; pc = update s.pc i (ended 1) })
    casts :
        (i : ℕ) (buffer : List ℕ)
        → s.pc i ≡ casting buffer
        → Step s (record s {
          sent = queue.every (active_user_send_func (sfd i) buffer) s.queue s.sent;
          pc = update s.pc i unlocking;
        })
    unlocks :
        (i : ℕ)
        → s.pc i ≡ unlocking
        → Step s (record s { holder = none; pc = update s.pc i testing })
    unlock_fails : (i : ℕ) → s.pc i ≡ unlocking → Step s (record s { pc = update s.pc i testing })

  pub data Reach (s : System Q) : System Q → Type 0 where
    start : Reach s s
    later : {t u : System Q} → Reach s t → Step t u → Reach s u
