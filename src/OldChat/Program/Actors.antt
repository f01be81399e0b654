-- ===== src/OldChat/Program/Actors.antt =====
-- What a step of a thread of udpchat/src/main.old.c leaves as it is in the other threads.
use csockets.Base.{ℕ, ◌≡◌, sym, subst, ◌∙◌, inl, inr, false, ◌==◌, Bool-cases, update_other, ==_eq}
use csockets.OldChat.{Queue}
use csockets.OldChat.Threads
use csockets.OldChat.Threads.{
  Pc, testing, System, goes, leaves, again, broken, receives, lock_fails, locks, adds, add_fails,
  casts, unlocks, unlock_fails,
}
use csockets.OldChat.Program.{HasEnded, actor}

module _ {Q : Type 0} (queue : Queue Q) (sfd : ℕ → ℕ) where
  actor_runs :
      {s t : System Q} (st : Threads.Step queue sfd s t) → HasEnded (s.pc (actor queue sfd st)) → ⊥
  actor_runs (goes i e) (c, h) = cc (sym e ∙ h)
  actor_runs (leaves i e) (c, h) = cc (sym e ∙ h)
  actor_runs (again i e) (c, h) = cc (sym e ∙ h)
  actor_runs (broken i e) (c, h) = cc (sym e ∙ h)
  actor_runs (receives i buffer addr len e) (c, h) = cc (sym e ∙ h)
  actor_runs (lock_fails i buffer user e) (c, h) = cc (sym e ∙ h)
  actor_runs (locks i buffer user e free) (c, h) = cc (sym e ∙ h)
  actor_runs (adds i buffer user q e f) (c, h) = cc (sym e ∙ h)
  actor_runs (add_fails i buffer user q e f) (c, h) = cc (sym e ∙ h)
  actor_runs (casts i buffer e) (c, h) = cc (sym e ∙ h)
  actor_runs (unlocks i e) (c, h) = cc (sym e ∙ h)
  actor_runs (unlock_fails i e) (c, h) = cc (sym e ∙ h)

  -- The other threads stay where they are.
  pub others_stay :
      {s t : System Q} (st : Threads.Step queue sfd s t) (j : ℕ)
      → (actor queue sfd st == j) ≡ false
      → t.pc j ≡ s.pc j
  others_stay {s} (goes i e) j d = update_other s.pc i _ j d
  others_stay {s} (leaves i e) j d = update_other s.pc i _ j d
  others_stay {s} (again i e) j d = update_other s.pc i _ j d
  others_stay {s} (broken i e) j d = update_other s.pc i _ j d
  others_stay {s} (receives i buffer addr len e) j d = update_other s.pc i _ j d
  others_stay {s} (lock_fails i buffer user e) j d = update_other s.pc i _ j d
  others_stay {s} (locks i buffer user e free) j d = update_other s.pc i _ j d
  others_stay {s} (adds i buffer user q e f) j d = update_other s.pc i _ j d
  others_stay {s} (add_fails i buffer user q e f) j d = update_other s.pc i _ j d
  others_stay {s} (casts i buffer e) j d = update_other s.pc i _ j d
  others_stay {s} (unlocks i e) j d = update_other s.pc i _ j d
  others_stay {s} (unlock_fails i e) j d = update_other s.pc i _ j d

  pub ended_stay :
      {s t : System Q} (st : Threads.Step queue sfd s t) (j : ℕ)
      → HasEnded (s.pc j)
      → HasEnded (t.pc j)
  ended_stay {s} st j h = elim (Bool-cases (actor queue sfd st == j)) [
    | inl e ↦ absurd (actor_runs st (subst (λ k. HasEnded (s.pc k)) (sym (==_eq _ j e)) h))
    | inr d ↦ let (code, e) = h in (code, others_stay st j d ∙ e)
  ]
