-- ===== src/UdpEcho/Threads/Ending.antt =====
-- That udpecho/main.c ends once `main` has told its threads to stop.
use csockets.Base.{
  ℕ, suc, ◌+◌, ◌-◌, ◌*◌, ◌≤◌, ◌<◌, ◌≡◌, ◌≢◌, refl, sym, ap, subst, ◌∙◌, ◌⊎◌, inl, inr, false,
  update, update_self, update_other, arith, sum_below, sum_below-lt, sum_below-le,
}
use native.Mathlib.Decide.{dec_lt}
use csockets.Chat.Master.{max_bind_count}
use csockets.UdpEcho.Threads.{
  MainPc, creating, stopping, joining, closing, waiting, finished, Pc, absent, testing, receiving,
  replying, ended, State, Own, creates, uncounted, all_created, stops, all_stopped, joins,
  all_joined, closes, all_closed, goes, leaves, times_out, replies, Step, own, not_created, signal,
  arrives, broken, not_sent, Reach, later,
}
use csockets.UdpEcho.Threads.Moves.{cleared, Counted, Inv}
use csockets.UdpEcho.Threads.Invariant.{Reach-Inv}

-- The flag of each thread is cleared.
abbrev pub Told : MainPc → Type 0
Told (joining k) = Unit {0}
Told (closing k) = Unit {0}
Told finished = Unit {0}
Told _ = ⊥

-- A bound on the steps that are left then.
abbrev pub left : Pc → ℕ
left testing = 1
left replying = 2
left receiving = 3
left _ = 0

abbrev pub main_left : ℕ → ℕ → MainPc → ℕ
main_left n len (joining k) = (len - k) + n + 3
main_left n len (closing k) = (n - k) + 1
main_left n len _ = 0

abbrev pub steps_left : ℕ → State → ℕ
steps_left n s = main_left n s.len s.main + sum_below (λ i. left (s.pc i)) s.len

-- A step of `main`.
main-lt :
    (n : ℕ) (s : State) (m m' : MainPc)
    → s.main ≡ m
    → main_left n s.len m' < main_left n s.len m
    → steps_left n (record s { main = m' }) < steps_left n s
main-lt n s m m' e lt = omega (arith, ap (main_left n s.len) e)

module _ (n : ℕ) (s : State) (h : Inv n s) where
  there : (i : ℕ) (p : Pc) → s.pc i ≡ p → p ≢ absent → i < s.len
  there i p e here = elim (dec_lt i s.len) [
    | yes lt ↦ lt
    | no ge ↦ absurd (here (sym e ∙ h.missing i (omega arith)))
  ]

  -- A step of thread `i`.
  thread-lt :
      (i : ℕ) (p p' : Pc)
      → s.pc i ≡ p
      → p ≢ absent
      → left p' < left p
      → steps_left n (record s { pc = update s.pc i p' }) < steps_left n s
  thread-lt i p p' e here lt =
      let less =
        sum_below-lt (λ j. left (update s.pc i p' j)) (λ j. left (s.pc j)) s.len i
          (there i p e here) (omega (arith, ap left (update_self s.pc i p'), ap left e))
          (λ j other. ap left (update_other s.pc i p' j other)) in
      omega (arith, less)

  stopped : Told s.main → (i : ℕ) → i < s.len → s.run i ≡ false
  stopped told i lt = h.down i (subst (λ k. i < k) (sym (cleared_all s.main told)) lt)
    where
      cleared_all : (m : MainPc) → Told m → cleared s.len m ≡ s.len
      cleared_all (creating k) t = absurd t
      cleared_all (stopping k) t = absurd t
      cleared_all waiting t = absurd t
      cleared_all (joining k) t = refl
      cleared_all (closing k) t = refl
      cleared_all finished t = refl

  Own-lt : {t : State} → Own n s t → Told s.main → Told t.main × (steps_left n t < steps_left n s)
  Own-lt (creates k e lt room) told = absurd (subst Told e told)
  Own-lt (uncounted k e lt full) told = absurd (subst Told e told)
  Own-lt (all_created k e le) told = absurd (subst Told e told)
  Own-lt (stops k e lt) told = absurd (subst Told e told)
  Own-lt (all_stopped k e le) told = absurd (subst Told e told)
  Own-lt (joins k e lt end) told = (tt, main-lt n s (joining k) (joining (suc k)) e (omega arith))
  Own-lt (all_joined k e le) told = (tt, main-lt n s (joining k) (closing 0) e (omega arith))
  Own-lt (closes k e lt) told = (tt, main-lt n s (closing k) (closing (suc k)) e (omega arith))
  Own-lt (all_closed k e le) told = (tt, main-lt n s (closing k) finished e (omega arith))
  Own-lt (goes i e f) told = absurd (cc (sym f ∙ stopped told i (there i testing e (λ x. cc x))))
  Own-lt (leaves i e f) told = (told, thread-lt i testing ended e (λ x. cc x) (omega arith))
  Own-lt (times_out i e) told = (told, thread-lt i receiving testing e (λ x. cc x) (omega arith))
  Own-lt (replies i e) told = (told, thread-lt i replying testing e (λ x. cc x) (omega arith))

  Step-lt : {t : State} → Step n s t → Told s.main → Told t.main × (steps_left n t < steps_left n s)
  Step-lt (own o) told = Own-lt o told
  Step-lt (not_created k e lt) told = absurd (subst Told e told)
  Step-lt (signal e) told = absurd (subst Told e told)
  Step-lt (arrives i e) told = (told, thread-lt i receiving replying e (λ x. cc x) (omega arith))
  Step-lt (broken i e) told = (told, thread-lt i receiving ended e (λ x. cc x) (omega arith))
  Step-lt (not_sent i e) told = (told, thread-lt i replying ended e (λ x. cc x) (omega arith))

  abbrev Acts : Type 0
  Acts = (s.main ≡ finished) ⊎ ((t : State) × Own n s t)

  -- The thread that `main` waits for.
  joins_or_acts :
      (k : ℕ) (p : Pc) → s.pc k ≡ p → Told s.main → s.main ≡ joining k → k < s.len → Acts
  joins_or_acts k absent f told e lt = absurd (h.present k lt f)
  joins_or_acts k testing f told e lt = inr (_, leaves k f (stopped told k lt))
  joins_or_acts k receiving f told e lt = inr (_, times_out k f)
  joins_or_acts k replying f told e lt = inr (_, replies k f)
  joins_or_acts k ended f told e lt = inr (_, joins k e lt f)

  acts : (m : MainPc) → s.main ≡ m → Told m → Acts
  acts (creating k) e told = absurd told
  acts (stopping k) e told = absurd told
  acts waiting e told = absurd told
  acts finished e told = inl e
  acts (joining k) e told = elim (dec_lt k s.len) [
    | yes lt ↦ joins_or_acts k (s.pc k) refl (subst Told (sym e) told) e lt
    | no ge ↦ inr (_, all_joined k e (omega arith))
  ]
  acts (closing k) e told = elim (dec_lt k n) [
    | yes lt ↦ inr (_, closes k e lt)
    | no ge ↦ inr (_, all_closed k e (omega arith))
  ]

main_left-le : (n len : ℕ) (m : MainPc) → len ≤ n → main_left n len m ≤ 2 * n + 3
main_left-le n len m le = ground arith

len-le : (n len : ℕ) (m : MainPc) → Counted n len m → len ≤ n
len-le n len (creating k) (same, le) = omega (arith, same, le)
len-le n len (stopping k) (le, le') = le'
len-le n len (joining k) (le, le') = le'
len-le n len (closing k) (le, le') = le'
len-le n len waiting (le, le') = le
len-le n len finished (le, le') = le

left_bound : (n : ℕ) (s : State) → Inv n s → steps_left n s ≤ 5 * n + 3
left_bound n s h =
    let le = len-le n s.len s.main h.counted in
    omega (
      arith,
      main_left-le n s.len s.main le,
      sum_below-le (λ i. left (s.pc i)) s.len 3 (λ j. left-le (s.pc j)),
    )
  where
    left-le : (p : Pc) → left p ≤ 3
    left-le p = ground arith

-- A number of steps.
pub data Runs (n : ℕ) (s : State) : ℕ → State → Type 0 where
  stop : Runs n s 0 s
  more : {k : ℕ} {t u : State} → Runs n s k t → Step n t u → Runs n s (suc k) u

Runs-Reach : {n : ℕ} {s : State} {k : ℕ} {t : State} → Reach n s → Runs n s k t → Reach n t
Runs-Reach r stop = r
Runs-Reach r (more rs st) = later (Runs-Reach r rs) st

Runs-left :
    {n : ℕ} {s : State} {k : ℕ} {t : State}
    → n ≤ max_bind_count
    → Reach n s
    → Told s.main
    → Runs n s k t
    → Told t.main × (k + steps_left n t ≤ steps_left n s)
Runs-left fits r told stop = (told, omega arith)
Runs-left {n} fits r told (more {t} rs st) =
    let (told', le) = Runs-left fits r told rs in
    let (told'', lt) = Step-lt n t (Reach-Inv fits (Runs-Reach r rs)) st told' in
    (told'', omega arith)

-- For at most MAX_BIND_COUNT sockets: once `main` has cleared the flag of each thread, at most
-- `5 * n + 3` more steps are taken, whatever arrives and fails; and as long as `main` is not at its
-- end, it or a thread can go on by itself, with no datagram, signal or error.
pub Runs-finishes :
    {n : ℕ} {s : State} {k : ℕ} {t : State}
    → n ≤ max_bind_count
    → Reach n s
    → Told s.main
    → Runs n s k t
    → (k ≤ 5 * n + 3) × ((t.main ≡ finished) ⊎ ((u : State) × Own n t u))
Runs-finishes {n} {s} {t} fits r told rs =
    let (told', le) = Runs-left fits r told rs in
    let h = Reach-Inv fits r in
    (
      omega (arith, le, left_bound n s h),
      acts n t (Reach-Inv fits (Runs-Reach r rs)) t.main refl told',
    )
