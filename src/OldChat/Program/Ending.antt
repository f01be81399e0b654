-- ===== src/OldChat/Program/Ending.antt =====
-- That the program of udpchat/src/main.old.c ends once `main` has told its threads to stop.
use csockets.Base.{
  ℕ, suc, ◌+◌, ◌*◌, ◌≤◌, ◌<◌, ◌≡◌, refl, sym, ap, subst, ◌∙◌, ◌⊎◌, inl, inr, Bool, true, List, [],
  Option-cases, arith, sum_below-le,
}
use native.Mathlib.Decide.{dec_lt}
use csockets.Chat.Master.{max_bind_count}
use csockets.OldChat.{User, Queue, add_user}
use csockets.OldChat.Admission.{Fifo}
use csockets.OldChat.Threads.{
  Pc, testing, receiving, unlocking, locking, adding, casting, ended, leaves, again, broken,
  receives, lock_fails, locks, adds, add_fails, casts, unlocks, unlock_fails,
}
use csockets.OldChat.Threads.Exclusion.{critical}
use csockets.OldChat.Threads.Occupied.{Occupied, unlock_errors}
use csockets.OldChat.Threads.Progress.{Reach-works, Reach-Occupied}
use csockets.OldChat.Program.{
  MainPc, creating, stopping, joining, closing, waiting, freeing, destroying, finished, Program,
  init, not_created, signal, joins, all_joined, closes, all_closed, frees, destroys, Step, of_main,
  of_thread, Reach, start, later,
}
use csockets.OldChat.Program.Invariant.{Inv, Reach-Inv, init-Inv, threads_path}
use csockets.OldChat.Program.Measure.{Told, left, main_left, steps_left, stopped, Step-lt}

main_left-le : (n len : ℕ) (m : MainPc) → len ≤ n → main_left n len m ≤ 2 * n + 4
main_left-le n len m le = ground arith

left-le : (p : Pc) → left p ≤ 6
left-le p = ground arith

left_bound : {Q : Type 0} (n : ℕ) (s : Program Q) → s.len ≤ n → steps_left n s ≤ 8 * n + 4
left_bound n s le = omega (
  arith,
  main_left-le n s.len s.main le,
  sum_below-le (λ i. left (s.threads.pc i)) s.len 6 (λ j. left-le (s.threads.pc j)),
)

module _ {Q : Type 0} (queue : Queue Q) (sfd : ℕ → ℕ) where
  -- A step with no datagram, signal or error.
  abbrev pub Unprompted : {n : ℕ} {s t : Program Q} → Step queue sfd n s t → Type 0
  Unprompted (of_main (not_created k e lt)) = ⊥
  Unprompted (of_main (signal e)) = ⊥
  Unprompted (of_main _) = Unit {0}
  Unprompted (of_thread (broken i e) below heeds) = ⊥
  Unprompted (of_thread (receives i buffer addr len e) below heeds) = ⊥
  Unprompted (of_thread (lock_fails i buffer user e) below heeds) = ⊥
  Unprompted (of_thread (add_fails i buffer user q e f) below heeds) = ⊥
  Unprompted (of_thread (unlock_fails i e) below heeds) = ⊥
  Unprompted (of_thread _ below heeds) = Unit {0}

  -- `main` is at its end, or it or a thread goes on by itself.
  abbrev Acts : ℕ → Program Q → Type 0
  Acts n s = (s.main ≡ finished) ⊎ ((t : Program Q) × (st : Step queue sfd n s t) × Unprompted st)

  module _ (n : ℕ) (s : Program Q) (h : Inv n s)
      (works : (user : User) → (q : Q) × (add_user queue s.threads.queue user ≡ (true, q)))
      (occupied : Occupied s.threads.holder s.threads.pc) where
    -- The thread with the mutex goes on.
    holder_acts :
        (i : ℕ) (p : Pc) → s.threads.pc i ≡ p → critical p ≡ true → i < s.created → Acts n s
    holder_acts i (adding buffer user) e c lt =
        let (q, f) = works user in inr (_, of_thread (adds i buffer user q e f) lt tt, tt)
    holder_acts i (casting buffer) e c lt = inr (_, of_thread (casts i buffer e) lt tt, tt)
    holder_acts i unlocking e c lt = inr (_, of_thread (unlocks i e) lt tt, tt)
    holder_acts i testing e c lt = absurd (cc c)
    holder_acts i receiving e c lt = absurd (cc c)
    holder_acts i (locking buffer user) e c lt = absurd (cc c)
    holder_acts i (ended code) e c lt = absurd (cc c)

    critical-lt : (i : ℕ) → critical (s.threads.pc i) ≡ true → i < s.created
    critical-lt i c = elim (dec_lt i s.created) [
      | yes lt ↦ lt
      | no ge ↦ absurd (cc (sym c ∙ ap critical (h.idle i (omega arith))))
    ]

    -- The thread that `main` waits for goes on, or the one that it waits for.
    joins_or_acts :
        (k : ℕ) (p : Pc)
        → s.threads.pc k ≡ p
        → Told s.main
        → s.main ≡ joining k
        → k < s.len
        → Acts n s
    joins_or_acts k testing f told e lt =
        let there : k < s.created = omega (arith, h.known) in
        inr (_, of_thread (leaves k f) there (stopped s h told k there), tt)
    joins_or_acts k receiving f told e lt =
        inr (_, of_thread (again k f) (omega (arith, h.known)) tt, tt)
    joins_or_acts k (locking buffer user) f told e lt = elim (Option-cases s.threads.holder) [
      | inl free ↦ inr (_, of_thread (locks k buffer user f free) (omega (arith, h.known)) tt, tt)
      | inr (i, has) ↦
          let inside = occupied i has in
          holder_acts i (s.threads.pc i) refl inside (critical-lt i inside)
    ]
    joins_or_acts k (adding buffer user) f told e lt =
        holder_acts k (adding buffer user) f refl (omega (arith, h.known))
    joins_or_acts k (casting buffer) f told e lt =
        holder_acts k (casting buffer) f refl (omega (arith, h.known))
    joins_or_acts k unlocking f told e lt = holder_acts k unlocking f refl (omega (arith, h.known))
    joins_or_acts k (ended code) f told e lt = inr (_, of_main (joins k e lt (code, f)), tt)

    acts : (m : MainPc) → s.main ≡ m → Told m → Acts n s
    acts (creating k) e told = absurd told
    acts waiting e told = absurd told
    acts (stopping k) e told = absurd told
    acts (joining k) e told = elim (dec_lt k s.len) [
      | yes lt ↦ joins_or_acts k (s.threads.pc k) refl (subst Told (sym e) told) e lt
      | no ge ↦ inr (_, of_main (all_joined k e (omega arith)), tt)
    ]
    acts (closing k) e told = elim (dec_lt k n) [
      | yes lt ↦ inr (_, of_main (closes k e lt), tt)
      | no ge ↦ inr (_, of_main (all_closed k e (omega arith)), tt)
    ]
    acts freeing e told = inr (_, of_main (frees e), tt)
    acts destroying e told = inr (_, of_main (destroys e), tt)
    acts finished e told = inl e

  -- One path behind another, and the number of its steps.
  abbrev pub beyond :
      {n : ℕ} {s t u : Program Q}
      → Reach queue sfd n s t
      → Reach queue sfd n t u
      → Reach queue sfd n s u
  beyond r start = r
  beyond r (later more st) = later (beyond r more) st

  abbrev pub steps : {n : ℕ} {s t : Program Q} → Reach queue sfd n s t → ℕ
  steps start = 0
  steps (later r st) = suc (steps r)

  steps-left :
      {n : ℕ} {s t : Program Q}
      → n ≤ max_bind_count
      → Inv n s
      → Told s.main
      → (rs : Reach queue sfd n s t) → Told t.main × (steps rs + steps_left n t ≤ steps_left n s)
  steps-left fits h told start = (told, omega arith)
  steps-left fits h told (later {t} rs st) =
      let (told', le) = steps-left fits h told rs in
      let (told'', lt) = Step-lt queue sfd (Reach-Inv fits queue sfd h rs) st told' in
      (told'', omega (arith, le, lt))

  module _ (same : User → User → Bool) (cap : ℕ) (users : Q → List User)
      (fifo : Fifo queue same cap users) (pos : 1 ≤ cap) {n : ℕ} (fits : n ≤ max_bind_count) where
    -- For a queue that keeps its order and its bound and is empty at the start, at most MAX_BIND_COUNT
    -- sockets, and no failure to unlock the mutex: once `main` has cleared the flag of each thread, at
    -- most `8 * n + 4` more steps are taken, whatever arrives and fails; and as long as `main` is not at
    -- its end, it or a thread can go on by itself, with no datagram, signal or error, so that no thread
    -- waits for ever for the mutex.
    pub Reach-finishes :
        {q : Q} {s t : Program Q}
        → users q ≡ []
        → (r : Reach queue sfd n (init q) s) → Told s.main
        → (rs : Reach queue sfd n s t)
        → unlock_errors queue sfd (threads_path queue sfd (beyond r rs)) ≡ 0
        → (steps rs ≤ 8 * n + 4)
          × ((t.main ≡ finished) ⊎ ((u : Program Q) × (st : Step queue sfd n t u) × Unprompted st))
    Reach-finishes {q} {s} {t} none_yet r told rs z =
        let h = Reach-Inv fits queue sfd (init-Inv fits q) r in
        let path = threads_path queue sfd (beyond r rs) in
        let (told', le) = steps-left fits h told rs in
        (
          omega (arith, le, left_bound n s h.few),
          acts n t (Reach-Inv fits queue sfd h rs)
              (Reach-works queue sfd same cap users fifo pos none_yet path)
              (Reach-Occupied queue sfd same cap users fifo pos none_yet path z) t.main refl told',
        )
