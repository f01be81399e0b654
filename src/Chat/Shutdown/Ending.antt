-- ===== src/Chat/Shutdown/Ending.antt =====
-- That udpchat/src/main.c ends once it got a signal.
use csockets.Base.{
  ℕ, suc, ◌+◌, ◌-◌, ◌*◌, ◌≤◌, ◌<◌, ◌≡◌, refl, ◌⊎◌, inl, inr, false, arith, Bool, true, Bool-cases,
}
use native.Mathlib.Decide.{dec_lt}
use csockets.Chat.Shutdown.{
  MainPc, waiting, clearing, joining, finished, killed, shutting, closing, MasterPc, testing,
  polling, freeing, ended, faulted, checking, handling, State, Own, clears, shuts, shut_all, joins,
  closes, closed_all, runs, leaves, wakes_up, passes, checked, handles, frees, faults, Step, own,
  signal, interrupted, poll_failed, ready, arrives, broken, fails, Reach, later,
}
use csockets.Chat.Shutdown.Occupied.{Step-occupied}
use csockets.Chat.Shutdown.Order.{IsUp, Inv, Reach-Inv}

-- A bound on the steps that are left, once `run` is cleared.
abbrev pub main_left : ℕ → MainPc → ℕ
main_left n (shutting k) = (n - k) + n + 4
main_left n joining = n + 2
main_left n (closing k) = (n - k) + 1
main_left n _ = 0

abbrev pub master_left : ℕ → MasterPc → ℕ
master_left n polling = 2 * n + 4
master_left n (checking k) = 2 * (n - k) + 3
master_left n (handling k) = 2 * (n - k) + 2
master_left n testing = 2
master_left n freeing = 1
master_left n ended = 0
master_left n faulted = 0

abbrev pub steps_left : ℕ → State → ℕ
steps_left n s = main_left n s.main + master_left n s.master

Own-lt :
    {w : Bool} {n : ℕ} {s t : State}
    → Own w n s t
    → Inv n s
    → s.run ≡ false
    → (t.run ≡ false) × (steps_left n t < steps_left n s)
Own-lt (clears e) i off = ground arith
Own-lt (shuts k e lt) i off = ground arith
Own-lt (shut_all k e le) i off = ground arith
Own-lt (joins e f) i off = ground arith
Own-lt (closes k e lt) i off = ground arith
Own-lt (closed_all k e le) i off = ground arith
Own-lt (runs e f) i off = ground arith
Own-lt (leaves e f) i off = ground arith
Own-lt (wakes_up w e f) i off = ground arith
Own-lt (passes k e lt) i off = ground arith
Own-lt (checked k e le) i off = ground arith
Own-lt (handles k b e) i off = ground arith
Own-lt (frees e f) i off = ground arith
Own-lt (faults e f) i off = ground arith

Step-lt :
    {w : Bool} {n : ℕ} {s t : State}
    → Step w n s t
    → Inv n s
    → s.run ≡ false
    → (t.run ≡ false) × (steps_left n t < steps_left n s)
Step-lt (own o) i off = Own-lt o i off
Step-lt (signal e) i off = ground arith
Step-lt (interrupted e) i off = ground arith
Step-lt (poll_failed e) i off = ground arith
Step-lt (ready e) i off = ground arith
Step-lt (arrives k e lt) i off = ground arith
Step-lt (broken k e lt) i off = ground arith
Step-lt (fails k b e) i off = ground arith

-- A number of steps.
pub data Runs (w : Bool) (n : ℕ) (s : State) : ℕ → State → Type 0 where
  stop : Runs w n s 0 s
  more : {k : ℕ} {t u : State} → Runs w n s k t → Step w n t u → Runs w n s (suc k) u

Runs-Reach :
    {w : Bool} {n : ℕ} {s : State} {k : ℕ} {t : State} → Reach w n s → Runs w n s k t → Reach w n t
Runs-Reach r stop = r
Runs-Reach r (more rs st) = later (Runs-Reach r rs) st

Runs-left :
    {w : Bool} {n : ℕ} {s : State} {k : ℕ} {t : State}
    → Reach w n s
    → s.run ≡ false
    → Runs w n s k t
    → (t.run ≡ false) × (k + steps_left n t ≤ steps_left n s)
Runs-left r off stop = (off, omega arith)
Runs-left {w} {n} r off (more {t} rs st) =
    let (off', le) = Runs-left r off rs in
    let (off'', lt) = Step-lt st (Reach-Inv (Runs-Reach r rs)) off' in (off'', omega arith)

left-le :
    (n : ℕ) (main : MainPc) (master : MasterPc)
    → main_left n main + master_left n master ≤ 4 * n + 8
left-le n main master = omega (arith, main_le main, master_le master)
  where
    main_le : (m : MainPc) → main_left n m ≤ 2 * n + 4
    main_le m = ground arith

    master_le : (m : MasterPc) → master_left n m ≤ 2 * n + 4
    master_le m = ground arith

Runs-occupied :
    {w : Bool} {n : ℕ} {s : State} {k : ℕ} {t : State}
    → Runs w n s k t
    → s.occupied ≡ true
    → t.occupied ≡ true
Runs-occupied stop h = h
Runs-occupied (more rs st) h = Step-occupied st (Runs-occupied rs h)

-- The thread that acts next.
master_acts :
    (n : ℕ) (s : State) (master : MasterPc)
    → s.master ≡ master
    → IsUp master
    → s.run ≡ false
    → 1 ≤ s.shut
    → (s.master ≡ ended) ⊎ ((t : State) × Own true n s t)
master_acts n s testing f up off le = inr (_, leaves f off)
master_acts n s polling f up off le = inr (_, wakes_up refl f le)
master_acts n s freeing f up off le = elim (Bool-cases s.occupied) [
  | inl e ↦ inr (_, frees f e)
  | inr e ↦ inr (_, faults f e)
]
master_acts n s ended f up off le = inl f
master_acts n s (handling k) f up off le = inr (_, handles k false f)
master_acts n s (checking k) f up off le = elim (dec_lt k n) [
  | yes lt ↦ inr (_, passes k f lt)
  | no ge ↦ inr (_, checked k f (omega arith))
]
master_acts n s faulted f up off le = elim up [ ]

-- Both threads came to their ends; or an access to NULL with an empty table killed the program.
abbrev pub HasEnded : State → Type 0
HasEnded s =
    ((s.main ≡ finished) × (s.master ≡ ended))
    ⊎ ((s.main ≡ killed) × (s.master ≡ faulted) × (s.occupied ≡ false))

abbrev Acts : ℕ → State → Type 0
Acts n s = HasEnded s ⊎ ((t : State) × Own true n s t)

acts :
    (n : ℕ) (s : State) (main : MainPc) → s.main ≡ main → Inv n s → s.run ≡ false → 1 ≤ n → Acts n s
acts n s waiting e i off pos = absurd (ground (arith, i.flag))
acts n s clearing e i off pos = absurd (ground (arith, i.flag))
acts n s finished e i off pos = inl (inl (e, (let j = i.joined in rw e at j)))
acts n s killed e i off pos =
    let (f, empty) = (let j = i.fault in rw e at j) in inl (inr (e, f, empty))
acts n s (shutting k) e i off pos = elim (dec_lt k n) [
  | yes lt ↦ inr (_, shuts k e lt)
  | no ge ↦ inr (_, shut_all k e (omega arith))
]
acts n s (closing k) e i off pos = elim (dec_lt k n) [
  | yes lt ↦ inr (_, closes k e lt)
  | no ge ↦ inr (_, closed_all k e (omega arith))
]
acts n s joining e i off pos =
    let up : IsUp s.master = (let j = i.fault in rw e at j) in
    let down : n ≤ s.shut = (let j = i.down in rw e at j) in
    elim (master_acts n s s.master refl up off (omega (arith, down))) [
      | inl f ↦ inr (_, joins e f)
      | inr o ↦ inr o
    ]

unharmed : {n : ℕ} {t : State} → Inv n t → t.occupied ≡ true → ¬ (t.main ≡ killed)
unharmed i o e = let (_, empty) = (let j = i.fault in rw e at j) in absurd (ground arith)

-- Where shutdown(2) ends a poll(2) on the sockets: once `main` has cleared `run`, with at least one
-- socket, the program takes at most `4 * n + 8` more steps, whatever arrives and fails. Until it has
-- ended, a thread can go on by itself, with no datagram, signal or error. Where it has ended, either
-- both threads came to their ends, or an access to NULL killed the program as the table of active
-- users was empty, which cannot happen where a user was in it when these steps began.
pub Runs-ends :
    {w : Bool} {n : ℕ} {s : State} {k : ℕ} {t : State}
    → w ≡ true
    → Reach w n s
    → s.run ≡ false
    → 1 ≤ n
    → Runs w n s k t
    → (k ≤ 4 * n + 8)
      × (HasEnded t ⊎ ((u : State) × Own w n t u))
      × (s.occupied ≡ true → ¬ (t.main ≡ killed))
Runs-ends {w} {n} {s} {k} {t} woken r off pos rs =
    let (off', le) = Runs-left r off rs in
    let inv = Reach-Inv (Runs-Reach r rs) in
    (
      omega (arith, left-le n s.main s.master),
      rw woken (acts n t t.main refl inv off' pos),
      λ o. unharmed inv (Runs-occupied rs o),
    )
