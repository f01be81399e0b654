-- ===== src/OldChat/Threads/Owed.antt =====
-- What the thread of udpchat/src/main.old.c that holds the mutex has still to send.
use mathlib.Core.List.{foldl}
use csockets.Base.{
  ℕ, ◌≡◌, refl, sym, subst, inl, inr, Bool, true, false, Option, none, some, List, [], ◌∷◌, ◌++◌,
  map, ◌==◌, Bool-cases, update, update_self, ==_eq,
}
use csockets.OldChat.{User, Sending, Queue, sending}
use csockets.OldChat.Admission.{admit}
use csockets.OldChat.Threads.{
  Pc, testing, receiving, unlocking, locking, adding, casting, ended, System, Step, goes, leaves,
  again, broken, receives, lock_fails, locks, adds, add_fails, casts, unlocks, unlock_fails, Reach,
  start, later,
}

-- A message: the socket, the text and the sender.
abbrev pub Message : Type 0
Message = ℕ × List ℕ × User

-- A server with one thread: the active users, and what it sent.
abbrev pub serve :
    (User → User → Bool) → ℕ → List User × List Sending → Message → List User × List Sending
serve same cap (us, sent) (sfd, buffer, user) =
    let us' = admit same cap user us in (us', sent ++ map (sending sfd buffer) us')

abbrev pub serve_all : (User → User → Bool) → ℕ → List Message → List User × List Sending
serve_all same cap ms = foldl (serve same cap) ([], []) ms

module _ {Q : Type 0} (queue : Queue Q) (sfd : ℕ → ℕ) where
  -- The message whose sender a step puts into the queue, and those of all steps, in order.
  abbrev pub added : {s t : System Q} → Step queue sfd s t → List Message
  added (goes i e) = []
  added (leaves i e) = []
  added (again i e) = []
  added (broken i e) = []
  added (receives i buffer addr len e) = []
  added (lock_fails i buffer user e) = []
  added (locks i buffer user e free) = []
  added (adds i buffer user q e f) = (sfd i, buffer, user) ∷ []
  added (add_fails i buffer user q e f) = []
  added (casts i buffer e) = []
  added (unlocks i e) = []
  added (unlock_fails i e) = []

  abbrev pub all_added : {s t : System Q} → Reach queue sfd s t → List Message
  all_added start = []
  all_added (later r st) = all_added r ++ added st

abbrev pub is_casting : Pc → Bool
is_casting (casting buffer) = true
is_casting _ = false

module _ (sfd : ℕ → ℕ) where
  -- What is still to be sent by the thread that holds the mutex.
  abbrev pub OwesAt : ℕ → Pc → List Sending → List User × List Sending → Type 0
  OwesAt i (casting buffer) sent (us, out) = sent ++ map (sending (sfd i) buffer) us ≡ out
  OwesAt i _ sent (us, out) = sent ≡ out

  abbrev pub Owes : Option ℕ → (ℕ → Pc) → List Sending → List User × List Sending → Type 0
  Owes none pc sent served = sent ≡ served.1
  Owes (some i) pc sent served = OwesAt i (pc i) sent served

  pub OwesAt-nothing :
      (i : ℕ) (p : Pc) (sent : List Sending) (served : List User × List Sending)
      → is_casting p ≡ false
      → OwesAt i p sent served ≡ (sent ≡ served.1)
  OwesAt-nothing i testing sent served e = refl
  OwesAt-nothing i receiving sent served e = refl
  OwesAt-nothing i unlocking sent served e = refl
  OwesAt-nothing i (locking buffer user) sent served e = refl
  OwesAt-nothing i (adding buffer user) sent served e = refl
  OwesAt-nothing i (casting buffer) sent served e = absurd (cc e)
  OwesAt-nothing i (ended n) sent served e = refl

  -- What the thread `i` owes that has the mutex.
  pub Owes-out :
      (holder : Option ℕ) (pc : ℕ → Pc) (i : ℕ) (p : Pc) (sent : List Sending)
      (served : List User × List Sending)
      → holder ≡ some i
      → pc i ≡ p
      → Owes holder pc sent served
      → OwesAt i p sent served
  Owes-out holder pc i p sent served has e h =
      subst (λ x. OwesAt i x sent served) e (subst (λ o. Owes o pc sent served) has h)

  pub Owes-in :
      (holder : Option ℕ) (pc : ℕ → Pc) (i : ℕ) (p : Pc) (sent : List Sending)
      (served : List User × List Sending)
      → holder ≡ some i
      → OwesAt i p sent served
      → Owes holder (update pc i p) sent served
  Owes-in holder pc i p sent served has h =
      subst (λ o. Owes o (update pc i p) sent served) (sym has)
        (subst (λ x. OwesAt i x sent served) (sym (update_self pc i p)) h)

  -- A step that sends nothing and has nothing to send.
  pub Owes-quiet :
      (holder : Option ℕ) (pc : ℕ → Pc) (i : ℕ) (p : Pc) (sent : List Sending)
      (served : List User × List Sending)
      → is_casting (pc i) ≡ false
      → is_casting p ≡ false
      → Owes holder pc sent served
      → Owes holder (update pc i p) sent served
  Owes-quiet none pc i p sent served was is h = h
  Owes-quiet (some k) pc i p sent served was is h = elim (Bool-cases (i == k)) [
    | inr e ↦ rw e h
    | inl e ↦
        rw (e, OwesAt-nothing k p sent served is)
          (rw (OwesAt-nothing k (pc k) sent served (rw (==_eq i k e) at was)) at h)
  ]
