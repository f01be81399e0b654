-- ===== src/OldChat/Threads/Failure.antt =====
-- What becomes of the threads of udpchat/src/main.old.c once one of them returned with the mutex.
use csockets.Base.{
  ℕ, ◌≡◌, refl, sym, ap, ◌∙◌, inl, inr, true, false, some, List, ◌==◌, Bool-cases, update,
}
use csockets.OldChat.{User, Sending, Queue, add_user}
use csockets.OldChat.Threads.{
  Pc, testing, receiving, unlocking, adding, casting, ended, System, init, Step, goes, leaves,
  again, broken, receives, lock_fails, locks, adds, add_fails, casts, unlocks, unlock_fails, Reach,
  start, later,
}
use csockets.OldChat.Threads.Exclusion.{critical, Reach-Exclusive, some-ne}

-- The state behind a step in which thread `i` fails to put a user into the queue.
abbrev pub failed : {Q : Type 0} → System Q → ℕ → Q → System Q
failed s i q = record s { queue = q; pc = update s.pc i (ended 1) }

module _ {Q : Type 0} (queue : Queue Q) (sfd : ℕ → ℕ) where
  -- Thread `i` has the mutex and is not between the lock and the unlock.
  record Abandoned (i : ℕ) (q : Q) (sent : List Sending) (s : System Q) : Type 0 where
    queue_kept : s.queue ≡ q
    sent_kept : s.sent ≡ sent
    held : s.holder ≡ some i
    outside : (j : ℕ) → critical (s.pc j) ≡ false

  outside-update :
      (pc : ℕ → Pc) (i : ℕ) (p : Pc)
      → ((j : ℕ) → critical (pc j) ≡ false)
      → critical p ≡ false
      → (j : ℕ) → critical (update pc i p j) ≡ false
  outside-update pc i p h e j = elim (Bool-cases (i == j)) [ inl f ↦ rw f e | inr f ↦ rw f (h j) ]

  moves :
      (i : ℕ) (q : Q) (sent : List Sending) (s : System Q) (k : ℕ) (p : Pc)
      → critical p ≡ false
      → Abandoned i q sent s
      → Abandoned i q sent (record s { pc = update s.pc k p })
  moves i q sent s k p e a = record {
    queue_kept = a.queue_kept;
    sent_kept = a.sent_kept;
    held = a.held;
    outside = outside-update s.pc k p a.outside e;
  }

  inside :
      (pc : ℕ → Pc) (k : ℕ) (p : Pc) → critical p ≡ true → pc k ≡ p → critical (pc k) ≡ false → ⊥
  inside pc k p c e out = cc (sym c ∙ (ap critical (sym e) ∙ out))

  Step-Abandoned :
      {s t : System Q} (i : ℕ) (q : Q) (sent : List Sending)
      → Step queue sfd s t
      → Abandoned i q sent s
      → Abandoned i q sent t
  Step-Abandoned {s} i q sent (goes k e) a = moves i q sent s k receiving refl a
  Step-Abandoned {s} i q sent (leaves k e) a = moves i q sent s k (ended 0) refl a
  Step-Abandoned {s} i q sent (again k e) a = moves i q sent s k testing refl a
  Step-Abandoned {s} i q sent (broken k e) a = moves i q sent s k (ended 1) refl a
  Step-Abandoned {s} i q sent (receives k buffer addr len e) a = moves i q sent s k _ refl a
  Step-Abandoned {s} i q sent (lock_fails k buffer user e) a = moves i q sent s k (ended 1) refl a
  Step-Abandoned {s} i q sent (locks k buffer user e free) a = absurd (cc (sym free ∙ a.held))
  Step-Abandoned {s} i q sent (adds k buffer user r e f) a =
      absurd (inside s.pc k (adding buffer user) refl e (a.outside k))
  Step-Abandoned {s} i q sent (add_fails k buffer user r e f) a =
      absurd (inside s.pc k (adding buffer user) refl e (a.outside k))
  Step-Abandoned {s} i q sent (casts k buffer e) a =
      absurd (inside s.pc k (casting buffer) refl e (a.outside k))
  Step-Abandoned {s} i q sent (unlocks k e) a =
      absurd (inside s.pc k unlocking refl e (a.outside k))
  Step-Abandoned {s} i q sent (unlock_fails k e) a = moves i q sent s k testing refl a

  Reach-Abandoned :
      {s t : System Q} (i : ℕ) (q : Q) (sent : List Sending)
      → Abandoned i q sent s
      → Reach queue sfd s t
      → Abandoned i q sent t
  Reach-Abandoned i q sent a start = a
  Reach-Abandoned i q sent a (later r st) =
      Step-Abandoned i q sent st (Reach-Abandoned i q sent a r)

  failed-Abandoned :
      {q₀ : Q} (s : System Q) (i : ℕ) (buffer : List ℕ) (user : User) (q : Q)
      → Reach queue sfd (init q₀) s
      → s.pc i ≡ adding buffer user
      → add_user queue s.queue user ≡ (false, q)
      → Abandoned i q s.sent (failed s i q)
  failed-Abandoned s i buffer user q r e f =
      let x = Reach-Exclusive queue sfd r in
      let has = x i (ap critical e) in
      record {
        queue_kept = refl;
        sent_kept = refl;
        held = has;
        outside = λ j. elim (Bool-cases (i == j)) [
          | inl same ↦ rw same refl
          | inr other ↦ elim (Bool-cases (critical (s.pc j))) [
            | inl c ↦ absurd (some-ne i j other (sym has ∙ x j c))
            | inr c ↦ rw other c
          ]
        ];
      }

  -- Where the queue refuses a user, the thread returns with the mutex: from then on, whatever the
  -- threads do, no thread ever gets the mutex, the queue stays as it is, and nothing is sent.
  pub add_fails_stuck :
      {q₀ : Q} {s t : System Q} (i : ℕ) (buffer : List ℕ) (user : User) (q : Q)
      → Reach queue sfd (init q₀) s
      → s.pc i ≡ adding buffer user
      → add_user queue s.queue user ≡ (false, q)
      → Reach queue sfd (failed s i q) t
      → Step queue sfd s (failed s i q) × (t.holder ≡ some i) × (t.queue ≡ q) × (t.sent ≡ s.sent)
  add_fails_stuck {s} i buffer user q r e f more =
      let a = Reach-Abandoned i q s.sent (failed-Abandoned s i buffer user q r e f) more in
      (add_fails i buffer user q e f, a.held, a.queue_kept, a.sent_kept)
