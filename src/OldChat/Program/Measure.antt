-- ===== src/OldChat/Program/Measure.antt =====
-- How many steps the program of udpchat/src/main.old.c has left once its threads are told to stop.
use csockets.Base.{
  ℕ, suc, ◌+◌, ◌-◌, ◌<◌, ◌≡◌, refl, sym, ap, subst, ◌∙◌, Bool, false, update, update_self,
  update_other, arith, sum_below, sum_below-lt,
}
use csockets.OldChat.{Queue}
use csockets.OldChat.Threads
use csockets.OldChat.Threads.{
  Pc, testing, receiving, unlocking, locking, adding, casting, ended, System, goes, leaves, again,
  broken, receives, lock_fails, locks, adds, add_fails, casts, unlocks, unlock_fails,
}
use csockets.OldChat.Program.{
  MainPc, creating, stopping, joining, closing, waiting, freeing, destroying, finished, Program,
  MainStep, creates, uncounted, not_created, all_created, signal, stops, all_stopped, joins,
  all_joined, closes, all_closed, frees, destroys, actor, Heeds, Step, of_main, of_thread,
}
use csockets.OldChat.Program.Invariant.{cleared, Inv}

-- The flag of each thread is cleared.
abbrev pub Told : MainPc → Type 0
Told (creating k) = ⊥
Told waiting = ⊥
Told (stopping k) = ⊥
Told (joining k) = Unit {0}
Told (closing k) = Unit {0}
Told freeing = Unit {0}
Told destroying = Unit {0}
Told finished = Unit {0}

-- A bound on the steps that are left then.
abbrev pub left : Pc → ℕ
left (ended code) = 0
left testing = 1
left unlocking = 2
left (casting buffer) = 3
left (adding buffer user) = 4
left (locking buffer user) = 5
left receiving = 6

abbrev pub main_left : ℕ → ℕ → MainPc → ℕ
main_left n len (joining k) = (len - k) + n + 4
main_left n len (closing k) = (n - k) + 3
main_left n len freeing = 2
main_left n len destroying = 1
main_left n len _ = 0

abbrev pub steps_left : {Q : Type 0} → ℕ → Program Q → ℕ
steps_left n s = main_left n s.len s.main + sum_below (λ i. left (s.threads.pc i)) s.len

main-lt :
    {Q : Type 0} (n : ℕ) (s : Program Q) (m m' : MainPc)
    → s.main ≡ m
    → main_left n s.len m' < main_left n s.len m
    → steps_left n (record s { main = m' }) < steps_left n s
main-lt n s m m' e lt = omega (arith, ap (main_left n s.len) e)

MainStep-lt :
    {Q : Type 0} {n : ℕ} {s t : Program Q}
    → MainStep n s t
    → Told s.main
    → Told t.main × (steps_left n t < steps_left n s)
MainStep-lt (creates k e lt room) told = absurd (subst Told e told)
MainStep-lt (uncounted k e lt full) told = absurd (subst Told e told)
MainStep-lt (not_created k e lt) told = absurd (subst Told e told)
MainStep-lt (all_created k e le) told = absurd (subst Told e told)
MainStep-lt (signal e) told = absurd (subst Told e told)
MainStep-lt (stops k e lt) told = absurd (subst Told e told)
MainStep-lt (all_stopped k e le) told = absurd (subst Told e told)
MainStep-lt {n = n} {s = s} (joins k e lt end) told =
    (tt, main-lt n s (joining k) (joining (suc k)) e (omega arith))
MainStep-lt {n = n} {s = s} (all_joined k e le) told =
    (tt, main-lt n s (joining k) (closing 0) e (omega arith))
MainStep-lt {n = n} {s = s} (closes k e lt) told =
    (tt, main-lt n s (closing k) (closing (suc k)) e (omega arith))
MainStep-lt {n = n} {s = s} (all_closed k e le) told =
    (tt, main-lt n s (closing k) freeing e (omega arith))
MainStep-lt {n = n} {s = s} (frees e) told = (tt, main-lt n s freeing destroying e (omega arith))
MainStep-lt {n = n} {s = s} (destroys e) told =
    (tt, main-lt n s destroying finished e (omega arith))

cleared_all : (len : ℕ) (m : MainPc) → Told m → cleared len m ≡ len
cleared_all len (creating k) t = absurd t
cleared_all len waiting t = absurd t
cleared_all len (stopping k) t = absurd t
cleared_all len (joining k) t = refl
cleared_all len (closing k) t = refl
cleared_all len freeing t = refl
cleared_all len destroying t = refl
cleared_all len finished t = refl

pub stopped :
    {Q : Type 0} {n : ℕ} (s : Program Q)
    → Inv n s
    → Told s.main
    → (i : ℕ) → i < s.created
    → s.run i ≡ false
stopped s h told i lt = h.down i (omega (arith, cleared_all s.len s.main told, h.known))

module _ {Q : Type 0} (queue : Queue Q) (sfd : ℕ → ℕ) where
  -- A thread whose flag is cleared comes nearer to its end with each step.
  thread-lt :
      (len : ℕ) (pc : ℕ → Pc) (i : ℕ) (p p' : Pc)
      → i < len
      → pc i ≡ p
      → left p' < left p
      → sum_below (λ j. left (update pc i p' j)) len < sum_below (λ j. left (pc j)) len
  thread-lt len pc i p p' there e lt =
      sum_below-lt (λ j. left (update pc i p' j)) (λ j. left (pc j)) len i there
        (omega (arith, ap left (update_self pc i p'), ap left e))
        (λ j other. ap left (update_other pc i p' j other))

  threads-lt :
      {s t : System Q} (st : Threads.Step queue sfd s t) (len : ℕ) (run : ℕ → Bool)
      → actor queue sfd st < len
      → run (actor queue sfd st) ≡ false
      → Heeds queue sfd run st
      → sum_below (λ j. left (t.pc j)) len < sum_below (λ j. left (s.pc j)) len
  threads-lt {s} (goes i e) len run there off heeds = absurd (cc (sym off ∙ heeds))
  threads-lt {s} (leaves i e) len run there off heeds =
      thread-lt len s.pc i testing (ended 0) there e (omega arith)
  threads-lt {s} (again i e) len run there off heeds =
      thread-lt len s.pc i receiving testing there e (omega arith)
  threads-lt {s} (broken i e) len run there off heeds =
      thread-lt len s.pc i receiving (ended 1) there e (omega arith)
  threads-lt {s} (receives i buffer addr l e) len run there off heeds =
      thread-lt len s.pc i receiving (locking buffer _) there e (omega arith)
  threads-lt {s} (lock_fails i buffer user e) len run there off heeds =
      thread-lt len s.pc i (locking buffer user) (ended 1) there e (omega arith)
  threads-lt {s} (locks i buffer user e free) len run there off heeds =
      thread-lt len s.pc i (locking buffer user) (adding buffer user) there e (omega arith)
  threads-lt {s} (adds i buffer user q e f) len run there off heeds =
      thread-lt len s.pc i (adding buffer user) (casting buffer) there e (omega arith)
  threads-lt {s} (add_fails i buffer user q e f) len run there off heeds =
      thread-lt len s.pc i (adding buffer user) (ended 1) there e (omega arith)
  threads-lt {s} (casts i buffer e) len run there off heeds =
      thread-lt len s.pc i (casting buffer) unlocking there e (omega arith)
  threads-lt {s} (unlocks i e) len run there off heeds =
      thread-lt len s.pc i unlocking testing there e (omega arith)
  threads-lt {s} (unlock_fails i e) len run there off heeds =
      thread-lt len s.pc i unlocking testing there e (omega arith)

  pub Step-lt :
      {n : ℕ} {s t : Program Q}
      → Inv n s
      → Step queue sfd n s t
      → Told s.main
      → Told t.main × (steps_left n t < steps_left n s)
  Step-lt h (of_main st) told = MainStep-lt st told
  Step-lt {n} {s} h (of_thread st below heeds) told =
      let off = stopped s h told (actor queue sfd st) below in
      let less = threads-lt st s.len s.run (omega (arith, h.known)) off heeds in
      (told, omega (arith, less))
