-- ===== src/OldChat/Threads/Occupied.antt =====
-- That the thread of udpchat/src/main.old.c which has the mutex is on its way to give it back.
use csockets.Base.{
  ℕ, ◌+◌, ◌≡◌, refl, sym, ap, subst, ◌∙◌, inl, inr, Bool, true, false, Option, some, ◌==◌,
  Bool-cases, update, update_self, arith, ==_eq,
}
use csockets.OldChat.{User, Queue, add_user}
use csockets.OldChat.Threads.{
  Pc, System, Step, goes, leaves, again, broken, receives, lock_fails, locks, adds, add_fails,
  casts, unlocks, unlock_fails, Reach, start, later,
}
use csockets.OldChat.Threads.Exclusion.{critical, Exclusive}

-- The thread with the mutex is between the lock and the unlock.
abbrev pub Occupied : Option ℕ → (ℕ → Pc) → Type 0
Occupied holder pc = (i : ℕ) → holder ≡ some i → critical (pc i) ≡ true

-- Thread `i` goes elsewhere: from outside of the section, or to a place within it.
Occupied-outside :
    (holder : Option ℕ) (pc : ℕ → Pc) (i : ℕ) (p : Pc)
    → critical (pc i) ≡ false
    → Occupied holder pc
    → Occupied holder (update pc i p)
Occupied-outside holder pc i p out h j has = elim (Bool-cases (i == j)) [
  | inl e ↦ absurd (cc (sym out ∙ (ap (λ n. critical (pc n)) (==_eq i j e) ∙ h j has)))
  | inr e ↦ rw e (h j has)
]

Occupied-inside :
    (holder : Option ℕ) (pc : ℕ → Pc) (i : ℕ) (p : Pc)
    → critical p ≡ true
    → Occupied holder pc
    → Occupied holder (update pc i p)
Occupied-inside holder pc i p inside h j has = elim (Bool-cases (i == j)) [
  | inl e ↦ rw e inside
  | inr e ↦ rw e (h j has)
]

Occupied-locks :
    (pc : ℕ → Pc) (i : ℕ) (p : Pc) → critical p ≡ true → Occupied (some i) (update pc i p)
Occupied-locks pc i p inside j has =
    subst (λ n. critical (update pc i p n) ≡ true) (cc has)
      (ap critical (update_self pc i p) ∙ inside)

module _ {Q : Type 0} (queue : Queue Q) (sfd : ℕ → ℕ) where
  -- How often unlocking the mutex failed.
  abbrev pub unlock_error : {s t : System Q} → Step queue sfd s t → ℕ
  unlock_error (unlock_fails i e) = 1
  unlock_error _ = 0

  abbrev pub unlock_errors : {s t : System Q} → Reach queue sfd s t → ℕ
  unlock_errors start = 0
  unlock_errors (later r st) = unlock_errors r + unlock_error st

  pub Step-Occupied :
      {s t : System Q} (st : Step queue sfd s t)
      → ((user : User) → (q : Q) × (add_user queue s.queue user ≡ (true, q)))
      → unlock_error st ≡ 0
      → Exclusive s.holder s.pc
      → Occupied s.holder s.pc
      → Occupied t.holder t.pc
  Step-Occupied {s} (goes i e) w z x h = Occupied-outside s.holder s.pc i _ (ap critical e) h
  Step-Occupied {s} (leaves i e) w z x h = Occupied-outside s.holder s.pc i _ (ap critical e) h
  Step-Occupied {s} (again i e) w z x h = Occupied-outside s.holder s.pc i _ (ap critical e) h
  Step-Occupied {s} (broken i e) w z x h = Occupied-outside s.holder s.pc i _ (ap critical e) h
  Step-Occupied {s} (receives i buffer addr len e) w z x h =
      Occupied-outside s.holder s.pc i _ (ap critical e) h
  Step-Occupied {s} (lock_fails i buffer user e) w z x h =
      Occupied-outside s.holder s.pc i _ (ap critical e) h
  Step-Occupied {s} (locks i buffer user e free) w z x h = Occupied-locks s.pc i _ refl
  Step-Occupied {s} (adds i buffer user q e f) w z x h = Occupied-inside s.holder s.pc i _ refl h
  Step-Occupied {s} (add_fails i buffer user q e f) w z x h =
      let (q', f') = w user in absurd (cc (ap (λ (r : Bool × Q). r.0) (sym f ∙ f')))
  Step-Occupied {s} (casts i buffer e) w z x h = Occupied-inside s.holder s.pc i _ refl h
  Step-Occupied {s} (unlocks i e) w z x h = λ j has. absurd (cc has)
  Step-Occupied {s} (unlock_fails i e) w z x h = absurd (omega (arith, z))
