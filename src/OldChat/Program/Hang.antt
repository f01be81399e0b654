-- ===== src/OldChat/Program/Hang.antt =====
-- What a full queue does to the end of the program of udpchat/src/main.old.c.
use csockets.Base.{
  ℕ, ◌+◌, ◌≤◌, ◌<◌, ◌≡◌, sym, ap, ◌∙◌, inl, inr, false, some, List, ◌==◌, Bool-cases, arith, ==_eq,
}
use native.Mathlib.Decide.{dec_lt}
use csockets.Chat.Master.{max_bind_count}
use csockets.OldChat.{User, Queue, add_user}
use csockets.OldChat.Threads
use csockets.OldChat.Threads.{
  Pc, testing, locking, adding, System, goes, leaves, again, broken, receives, lock_fails, locks,
  adds, add_fails, casts, unlocks, unlock_fails,
}
use csockets.OldChat.Threads.Failure.{failed, add_fails_stuck}
use csockets.OldChat.Program.{Program, init, actor, of_thread, Reach}
use csockets.OldChat.Program.Actors.{others_stay}
use csockets.OldChat.Program.Invariant.{Inv, Reach-Inv, init-Inv, Step-Inv, threads_path}
use csockets.OldChat.Program.Shutdown.{given_back, all_joined_or_nothing}

module _ {Q : Type 0} (queue : Queue Q) (sfd : ℕ → ℕ) where
  -- How often locking the mutex gave an error.
  abbrev pub lock_error : {s t : System Q} → Threads.Step queue sfd s t → ℕ
  lock_error (lock_fails i buffer user e) = 1
  lock_error _ = 0

  abbrev pub lock_errors : {s t : System Q} → Threads.Reach queue sfd s t → ℕ
  lock_errors Threads.start = 0
  lock_errors (Threads.later r st) = lock_errors r + lock_error st

  -- A thread that waits for a mutex which is held takes no step.
  waiter_rests :
      {s t : System Q} (st : Threads.Step queue sfd s t) (i : ℕ) (buffer : List ℕ) (user : User)
      → s.holder ≡ some i
      → lock_error st ≡ 0
      → s.pc (actor queue sfd st) ≡ locking buffer user
      → ⊥
  waiter_rests (goes k e) i buffer user has z at_lock = cc (sym e ∙ at_lock)
  waiter_rests (leaves k e) i buffer user has z at_lock = cc (sym e ∙ at_lock)
  waiter_rests (again k e) i buffer user has z at_lock = cc (sym e ∙ at_lock)
  waiter_rests (broken k e) i buffer user has z at_lock = cc (sym e ∙ at_lock)
  waiter_rests (receives k b a l e) i buffer user has z at_lock = cc (sym e ∙ at_lock)
  waiter_rests (lock_fails k b u e) i buffer user has z at_lock = absurd (omega (arith, z))
  waiter_rests (locks k b u e free) i buffer user has z at_lock = cc (sym free ∙ has)
  waiter_rests (adds k b u q e f) i buffer user has z at_lock = cc (sym e ∙ at_lock)
  waiter_rests (add_fails k b u q e f) i buffer user has z at_lock = cc (sym e ∙ at_lock)
  waiter_rests (casts k b e) i buffer user has z at_lock = cc (sym e ∙ at_lock)
  waiter_rests (unlocks k e) i buffer user has z at_lock = cc (sym e ∙ at_lock)
  waiter_rests (unlock_fails k e) i buffer user has z at_lock = cc (sym e ∙ at_lock)

  Step-waits :
      {s t : System Q} (st : Threads.Step queue sfd s t) (i j : ℕ) (buffer : List ℕ) (user : User)
      → s.holder ≡ some i
      → lock_error st ≡ 0
      → s.pc j ≡ locking buffer user
      → t.pc j ≡ locking buffer user
  Step-waits {s} st i j buffer user has z e = elim (Bool-cases (actor queue sfd st == j)) [
    | inl same ↦
        absurd
          (waiter_rests st i buffer user has z (ap s.pc (==_eq (actor queue sfd st) j same) ∙ e))
    | inr other ↦ others_stay queue sfd st j other ∙ e
  ]

  -- Along any path on which the mutex is held at each state.
  path-waits :
      {s t : System Q} (i j : ℕ) (buffer : List ℕ) (user : User)
      → ((u : System Q) → Threads.Reach queue sfd s u → u.holder ≡ some i)
      → (r : Threads.Reach queue sfd s t) → lock_errors r ≡ 0
      → s.pc j ≡ locking buffer user
      → t.pc j ≡ locking buffer user
  path-waits i j buffer user has Threads.start z e = e
  path-waits i j buffer user has (Threads.later {t} r st) z e =
      Step-waits st i j buffer user (has t r) (omega (arith, z))
        (path-waits i j buffer user has r (omega (arith, z)) e)

  module _ {n : ℕ} (fits : n ≤ max_bind_count) where
    still_joining :
        (s : Program Q) (j : ℕ) (buffer : List ℕ) (user : User)
        → Inv n s
        → s.threads.pc j ≡ locking buffer user
        → given_back n s.main ≡ 0
    still_joining s j buffer user h e = elim (all_joined_or_nothing n s.len s.main) [
      | inl nothing ↦ nothing
      | inr all ↦ elim (dec_lt j s.created) [
        | yes lt ↦
            let (code, end) = h.over j (omega (arith, all, h.known)) in absurd (cc (sym e ∙ end))
        | no ge ↦ absurd (cc (sym e ∙ h.idle j (omega arith)))
      ]
    ]

    created_at :
        (s : Program Q) (i : ℕ) (buffer : List ℕ) (user : User)
        → Inv n s
        → s.threads.pc i ≡ adding buffer user
        → i < s.created
    created_at s i buffer user h e = elim (dec_lt i s.created) [
      | yes lt ↦ lt
      | no ge ↦ absurd (cc (sym e ∙ h.idle i (omega arith)))
    ]

    another :
        (s : Program Q) (i j : ℕ) (buffer buffer' : List ℕ) (user user' : User)
        → s.threads.pc i ≡ adding buffer user
        → s.threads.pc j ≡ locking buffer' user'
        → (i == j) ≡ false
    another s i j buffer buffer' user user' e e' = elim (Bool-cases (i == j)) [
      | inr other ↦ other
      | inl same ↦ absurd (cc (sym e ∙ (ap s.threads.pc (==_eq i j same) ∙ e')))
    ]

    held_by :
        {q : Q} {s : Program Q} (u : System Q) (i : ℕ) (buffer : List ℕ) (user : User) (q' : Q)
        → Reach queue sfd n (init q) s
        → s.threads.pc i ≡ adding buffer user
        → add_user queue s.threads.queue user ≡ (false, q')
        → Threads.Reach queue sfd (failed s.threads i q') u
        → u.holder ≡ some i
    held_by u i buffer user q' before e fails more =
        let (step, held, kept, sent) =
          add_fails_stuck queue sfd i buffer user q' (threads_path queue sfd before) e fails more in
        held

    -- For at most MAX_BIND_COUNT sockets: the queue refuses the user of one thread, and another thread
    -- waits for the mutex. As long as pthread_mutex_lock gives no error, whatever happens from then on,
    -- that thread waits, and `main` gives nothing back: not a socket, nor the queue, nor a mutex. So the
    -- program does not end, though it gets its signal.
    pub add_fails-hangs :
        {q : Q} {s t : Program Q} (i j : ℕ) (buffer buffer' : List ℕ) (user user' : User) (q' : Q)
        → Reach queue sfd n (init q) s
        → s.threads.pc i ≡ adding buffer user
        → add_user queue s.threads.queue user ≡ (false, q')
        → s.threads.pc j ≡ locking buffer' user'
        → (r : Reach queue sfd n (record s { threads = failed s.threads i q' }) t)
        → lock_errors (threads_path queue sfd r) ≡ 0
        → (t.threads.pc j ≡ locking buffer' user') × (given_back n t.main ≡ 0)
    add_fails-hangs {q} {s} {t} i j buffer buffer' user user' q' before e fails waits r z =
        let h = Reach-Inv fits queue sfd (init-Inv fits q) before in
        let below : i < s.created = created_at s i buffer user h e in
        let next =
          Step-Inv fits queue sfd (of_thread (add_fails i buffer user q' e fails) below tt) h in
        let still =
          path-waits i j buffer' user' (λ u more. held_by u i buffer user q' before e fails more)
            (threads_path queue sfd r) z
            (others_stay queue sfd {s = s.threads} (add_fails i buffer user q' e fails) j
                (another s i j buffer buffer' user user' e waits)
              ∙ waits) in
        (still, still_joining t j buffer' user' (Reach-Inv fits queue sfd next r) still)
