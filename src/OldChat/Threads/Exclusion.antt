-- ===== src/OldChat/Threads/Exclusion.antt =====
-- That one thread of udpchat/src/main.old.c at a time uses the queue.
use csockets.Base.{
  ℕ, ◌≡◌, ◌≢◌, refl, sym, ap, subst, ◌∙◌, inl, inr, Bool, true, false, Option, none, some, ◌==◌,
  Bool-cases, update, arith, ==_eq,
}
use csockets.OldChat.{Queue}
use csockets.OldChat.Threads.{
  Pc, unlocking, adding, casting, System, init, Step, goes, leaves, again, broken, receives,
  lock_fails, locks, adds, add_fails, casts, unlocks, unlock_fails, Reach, start, later,
}

-- Between the lock and the unlock.
abbrev pub critical : Pc → Bool
critical (adding buffer user) = true
critical (casting buffer) = true
critical unlocking = true
critical _ = false

-- A thread there has the mutex.
abbrev pub Exclusive : Option ℕ → (ℕ → Pc) → Type 0
Exclusive holder pc = (j : ℕ) → critical (pc j) ≡ true → holder ≡ some j

-- Thread `i` goes elsewhere: out of the section, or within it with the mutex.
Exclusive-outside :
    (holder : Option ℕ) (pc : ℕ → Pc) (i : ℕ) (p : Pc)
    → critical p ≡ false
    → Exclusive holder pc
    → Exclusive holder (update pc i p)
Exclusive-outside holder pc i p out h j = elim (Bool-cases (i == j)) [
  | inl e ↦ rw (e, out) (λ c. absurd (cc c))
  | inr e ↦ rw e (h j)
]

Exclusive-inside :
    (holder : Option ℕ) (pc : ℕ → Pc) (i : ℕ) (p : Pc)
    → holder ≡ some i
    → Exclusive holder pc
    → Exclusive holder (update pc i p)
Exclusive-inside holder pc i p has h j = elim (Bool-cases (i == j)) [
  | inl e ↦ λ c. has ∙ ap some (==_eq i j e)
  | inr e ↦ rw e (h j)
]

-- With the mutex free, no thread is there.
Exclusive-locks :
    (pc : ℕ → Pc) (i : ℕ) (p : Pc) → Exclusive none pc → Exclusive (some i) (update pc i p)
Exclusive-locks pc i p h j = elim (Bool-cases (i == j)) [
  | inl e ↦ λ c. ap some (==_eq i j e)
  | inr e ↦ rw e (λ c. absurd (cc (h j c)))
]

pub some-ne : (a b : ℕ) → (a == b) ≡ false → some a ≢ some b
some-ne a b e same = ground (arith, same)

Exclusive-unlocks :
    (holder : Option ℕ) (pc : ℕ → Pc) (i : ℕ) (p : Pc)
    → critical p ≡ false
    → holder ≡ some i
    → Exclusive holder pc
    → Exclusive none (update pc i p)
Exclusive-unlocks holder pc i p out has h j = elim (Bool-cases (i == j)) [
  | inl e ↦ rw (e, out) (λ c. absurd (cc c))
  | inr e ↦ rw e (λ c. absurd (some-ne i j e (sym has ∙ h j c)))
]

module _ {Q : Type 0} (queue : Queue Q) (sfd : ℕ → ℕ) where
  pub Step-Exclusive :
      {s t : System Q} → Step queue sfd s t → Exclusive s.holder s.pc → Exclusive t.holder t.pc
  Step-Exclusive {s} (goes i e) h = Exclusive-outside s.holder s.pc i _ refl h
  Step-Exclusive {s} (leaves i e) h = Exclusive-outside s.holder s.pc i _ refl h
  Step-Exclusive {s} (again i e) h = Exclusive-outside s.holder s.pc i _ refl h
  Step-Exclusive {s} (broken i e) h = Exclusive-outside s.holder s.pc i _ refl h
  Step-Exclusive {s} (receives i buffer addr len e) h = Exclusive-outside s.holder s.pc i _ refl h
  Step-Exclusive {s} (lock_fails i buffer user e) h = Exclusive-outside s.holder s.pc i _ refl h
  Step-Exclusive {s} (locks i buffer user e free) h =
      Exclusive-locks s.pc i _ (subst (λ o. Exclusive o s.pc) free h)
  Step-Exclusive {s} (adds i buffer user q e f) h =
      Exclusive-inside s.holder s.pc i _ (h i (ap critical e)) h
  Step-Exclusive {s} (add_fails i buffer user q e f) h = Exclusive-outside s.holder s.pc i _ refl h
  Step-Exclusive {s} (casts i buffer e) h =
      Exclusive-inside s.holder s.pc i _ (h i (ap critical e)) h
  Step-Exclusive {s} (unlocks i e) h =
      Exclusive-unlocks s.holder s.pc i _ refl (h i (ap critical e)) h
  Step-Exclusive {s} (unlock_fails i e) h = Exclusive-outside s.holder s.pc i _ refl h

  pub Reach-Exclusive :
      {q : Q} {s : System Q} → Reach queue sfd (init q) s → Exclusive s.holder s.pc
  Reach-Exclusive start = λ j c. absurd (cc c)
  Reach-Exclusive (later r st) = Step-Exclusive st (Reach-Exclusive r)

some_inj : {a b : ℕ} → some a ≡ some b → a ≡ b
some_inj e = cc e

-- Whatever the queue's functions do, and in every order of steps, two threads are never both between
-- the lock and the unlock of active_users_lock.
pub critical_exclusive :
    {Q : Type 0} (queue : Queue Q) (sfd : ℕ → ℕ) {q : Q} {s : System Q} (i j : ℕ)
    → Reach queue sfd (init q) s
    → critical (s.pc i) ≡ true
    → critical (s.pc j) ≡ true
    → i ≡ j
critical_exclusive queue sfd i j r c d =
    let h = Reach-Exclusive queue sfd r in some_inj (sym (h i c) ∙ h j d)
