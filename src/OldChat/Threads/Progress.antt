-- ===== src/OldChat/Threads/Progress.antt =====
-- That the threads of udpchat/src/main.old.c do not block each other for ever.
use csockets.Base.{
  ℕ, suc, ◌+◌, ◌≤◌, ◌≡◌, refl, sym, ap, ◌∙◌, inl, inr, Bool, true, false, none, some, List, [],
  ◌==◌, Bool-cases, Option-cases, update, update_self, update_other, arith, ==_eq,
}
use csockets.OldChat.{User, Queue, add_user}
use csockets.OldChat.Admission.{Fifo, add_user-admit}
use csockets.OldChat.Threads.{
  Pc, testing, receiving, unlocking, locking, adding, casting, ended, System, init, locks, adds,
  casts, unlocks, Reach, start, later,
}
use csockets.OldChat.Threads.Exclusion.{critical, Reach-Exclusive}
use csockets.OldChat.Threads.Order.{Reach-Serial}
use csockets.OldChat.Threads.Occupied.{Occupied, unlock_errors, Step-Occupied}

module _ {Q : Type 0} (queue : Queue Q) (sfd : ℕ → ℕ) where
  -- The number of steps.
  abbrev pub steps : {s t : System Q} → Reach queue sfd s t → ℕ
  steps start = 0
  steps (later r st) = suc (steps r)

  -- All threads but `k` stand where they stood.
  abbrev Others : System Q → System Q → ℕ → Type 0
  Others s t k = (j : ℕ) → (k == j) ≡ false → t.pc j ≡ s.pc j

  -- Thread `k` gives the mutex back, after `n` more steps.
  abbrev Frees : {s t : System Q} → Reach queue sfd s t → ℕ → ℕ → Type 0
  Frees {s} r k n =
      (u : System Q) × (more : Reach queue sfd s u) × (u.holder ≡ none)
      × Others s u k
      × (steps more ≤ steps r + n)

  Others-update :
      (s t : System Q) (k : ℕ) (p : Pc)
      → Others s t k
      → (j : ℕ) → (k == j) ≡ false
      → update t.pc k p j ≡ s.pc j
  Others-update s t k p h j e = update_other t.pc k p j e ∙ h j e

  unlocking-Frees :
      {s t : System Q} (r : Reach queue sfd s t) (k : ℕ)
      → t.pc k ≡ unlocking
      → Others s t k
      → Frees r k 1
  unlocking-Frees {s} {t} r k e h =
      (_, later r (unlocks k e), refl, Others-update s t k testing h, omega arith)

  casting-Frees :
      {s t : System Q} (r : Reach queue sfd s t) (k : ℕ) (buffer : List ℕ)
      → t.pc k ≡ casting buffer
      → Others s t k
      → Frees r k 2
  casting-Frees {s} {t} r k buffer e h =
      let (u, more, free, others, le) =
        unlocking-Frees (later r (casts k buffer e)) k (update_self t.pc k unlocking)
          (Others-update s t k unlocking h) in
      (u, more, free, others, omega (arith, le))

  adding-Frees :
      {s t : System Q} (r : Reach queue sfd s t) (k : ℕ) (buffer : List ℕ) (user : User) (q : Q)
      → t.pc k ≡ adding buffer user
      → add_user queue t.queue user ≡ (true, q)
      → Others s t k
      → Frees r k 3
  adding-Frees {s} {t} r k buffer user q e f h =
      let (u, more, free, others, le) =
        casting-Frees (later r (adds k buffer user q e f)) k buffer
          (update_self t.pc k (casting buffer)) (Others-update s t k (casting buffer) h) in
      (u, more, free, others, omega (arith, le))

  critical-Frees :
      (s : System Q) (k : ℕ) (p : Pc)
      → ((user : User) → (q : Q) × (add_user queue s.queue user ≡ (true, q)))
      → s.pc k ≡ p
      → critical p ≡ true
      → Frees {s = s} {t = s} start k 3
  critical-Frees s k (adding buffer user) works e c =
      let (q, f) = works user in
      adding-Frees {s = s} {t = s} start k buffer user q e f (λ j other. refl)
  critical-Frees s k (casting buffer) works e c =
      let (u, more, free, others, le) =
        casting-Frees {s = s} {t = s} start k buffer e (λ j other. refl) in
      (u, more, free, others, omega (arith, le))
  critical-Frees s k unlocking works e c =
      let (u, more, free, others, le) =
        unlocking-Frees {s = s} {t = s} start k e (λ j other. refl) in
      (u, more, free, others, omega (arith, le))
  critical-Frees s k testing works e c = absurd (cc c)
  critical-Frees s k receiving works e c = absurd (cc c)
  critical-Frees s k (locking buffer user) works e c = absurd (cc c)
  critical-Frees s k (ended n) works e c = absurd (cc c)

module _ {Q : Type 0} (queue : Queue Q) (sfd : ℕ → ℕ) (same : User → User → Bool) (cap : ℕ)
    (users : Q → List User) (fifo : Fifo queue same cap users) (pos : 1 ≤ cap) where
  pub Reach-works :
      {q : Q} {s : System Q}
      → users q ≡ []
      → Reach queue sfd (init q) s
      → (user : User) → (q' : Q) × (add_user queue s.queue user ≡ (true, q'))
  Reach-works {s = s} none_yet r user =
      let h = Reach-Serial queue sfd same cap users fifo pos none_yet r in
      let (q', e, admitted, le) =
        add_user-admit queue same cap users fifo pos s.queue user h.bounded in
      (q', e)

  pub Reach-Occupied :
      {q : Q} {s : System Q}
      → users q ≡ []
      → (r : Reach queue sfd (init q) s) → unlock_errors queue sfd r ≡ 0
      → Occupied s.holder s.pc
  Reach-Occupied none_yet start z = λ i has. absurd (cc has)
  Reach-Occupied none_yet (later r st) z =
      Step-Occupied queue sfd st (Reach-works none_yet r) (omega (arith, z))
        (Reach-Exclusive queue sfd r) (Reach-Occupied none_yet r (omega (arith, z)))

  -- A thread that waits for the mutex gets it once it is free.
  gets :
      (s u : System Q) (more : Reach queue sfd s u) (i n : ℕ) (buffer : List ℕ) (user : User)
      → u.pc i ≡ locking buffer user
      → u.holder ≡ none
      → steps queue sfd more ≤ n
      → (t : System Q) × (all : Reach queue sfd s t) × (t.holder ≡ some i)
        × (t.pc i ≡ adding buffer user)
        × (steps queue sfd all ≤ n + 1)
  gets s u more i n buffer user e free le = (
    _,
    later more (locks i buffer user e free),
    refl,
    update_self u.pc i (adding buffer user),
    omega (arith, le),
  )

  -- For a queue that keeps its order and its bound and is empty at the start, and as long as no
  -- unlocking of the mutex failed: in every state that the threads reach, however they take turns, a
  -- thread that waits for the mutex gets it within four steps of the threads, whoever has it.
  pub waiting_locks :
      {q : Q} {s : System Q} (i : ℕ) (buffer : List ℕ) (user : User)
      → users q ≡ []
      → (r : Reach queue sfd (init q) s) → unlock_errors queue sfd r ≡ 0
      → s.pc i ≡ locking buffer user
      → (t : System Q) × (more : Reach queue sfd s t) × (t.holder ≡ some i)
        × (t.pc i ≡ adding buffer user)
        × (steps queue sfd more ≤ 4)
  waiting_locks {s = s} i buffer user none_yet r z e = elim (Option-cases s.holder) [
    | inl free ↦
        let (t, more, has, there, le) = gets s s start i 0 buffer user e free (omega arith) in
        (t, more, has, there, omega (arith, le))
    | inr (k, has) ↦
        let inside = Reach-Occupied none_yet r z k has in
        let other : (k == i) ≡ false = elim (Bool-cases (k == i)) [
          | inr ne ↦ ne
          | inl eq ↦
              absurd
                (cc (sym inside ∙ (ap (λ n. critical (s.pc n)) (==_eq k i eq) ∙ ap critical e)))
        ] in
        let (u, more, free, others, le) =
          critical-Frees queue sfd s k (s.pc k) (Reach-works none_yet r) refl inside in
        gets s u more i 3 buffer user (others i other ∙ e) free le
  ]
