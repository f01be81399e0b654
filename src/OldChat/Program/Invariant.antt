-- ===== src/OldChat/Program/Invariant.antt =====
-- What holds of `main` of udpchat/src/main.old.c and its threads in every order of their steps.
use csockets.Base.{
  ℕ, suc, ◌≤◌, ◌<◌, ◌≡◌, refl, subst, ◌∙◌, inl, inr, Bool, false, ◌==◌, Bool-cases, arith, ==_eq,
}
use csockets.Chat.Master.{max_bind_count}
use csockets.OldChat.{Queue}
use csockets.OldChat.Threads
use csockets.OldChat.Threads.{
  Pc, testing, System, goes, leaves, again, broken, receives, lock_fails, locks, adds, add_fails,
  casts, unlocks, unlock_fails,
}
use csockets.OldChat.Program.Actors.{others_stay, ended_stay}
use csockets.OldChat.Program.{
  MainPc, creating, stopping, joining, closing, waiting, freeing, destroying, finished, Program,
  init, HasEnded, MainStep, creates, uncounted, not_created, all_created, signal, stops,
  all_stopped, joins, all_joined, closes, all_closed, frees, destroys, Step, of_main, of_thread,
  Reach, start, later,
}

-- How many threads are joined.
abbrev pub joined : ℕ → MainPc → ℕ
joined len (creating k) = 0
joined len waiting = 0
joined len (stopping k) = 0
joined len (joining k) = k
joined len (closing k) = len
joined len freeing = len
joined len destroying = len
joined len finished = len

-- Of how many threads the flag is cleared.
abbrev pub cleared : ℕ → MainPc → ℕ
cleared len (creating k) = 0
cleared len waiting = 0
cleared len (stopping k) = k
cleared len (joining k) = len
cleared len (closing k) = len
cleared len freeing = len
cleared len destroying = len
cleared len finished = len

abbrev pub Counted : ℕ → ℕ → MainPc → Type 0
Counted n len (creating k) = (len ≡ k) × (k ≤ n)
Counted n len _ = Unit {0}

pub record Inv {Q : Type 0} (n : ℕ) (s : Program Q) : Type 0 where
  pub counted : Counted n s.len s.main
  pub few : s.len ≤ n
  pub known : s.created ≡ s.len
  pub down : (i : ℕ) → i < cleared s.len s.main → s.run i ≡ false
  pub over : (i : ℕ) → i < joined s.len s.main → HasEnded (s.threads.pc i)
  pub idle : (i : ℕ) → s.created ≤ i → s.threads.pc i ≡ testing

module _ {Q : Type 0} {n : ℕ} (fits : n ≤ max_bind_count) where
  -- `main` goes to where as many threads are joined.
  goes_to :
      (s : Program Q) (m : MainPc) (run : ℕ → Bool)
      → Counted n s.len m
      → ((i : ℕ) → i < cleared s.len m → run i ≡ false)
      → ((i : ℕ) → i < joined s.len m → HasEnded (s.threads.pc i))
      → Inv n s
      → Inv n (record s { main = m; run = run })
  goes_to s m run c d o h = record {
    counted = c;
    few = h.few;
    known = h.known;
    down = d;
    over = o;
    idle = h.idle;
  }

  over_at :
      (s : Program Q) (m : MainPc)
      → s.main ≡ m
      → Inv n s
      → (i : ℕ) → i < joined s.len m
      → HasEnded (s.threads.pc i)
  over_at s m e h = subst (λ x. (i : ℕ) → i < joined s.len x → HasEnded (s.threads.pc i)) e h.over

  down_at :
      (s : Program Q) (m : MainPc)
      → s.main ≡ m
      → Inv n s
      → (i : ℕ) → i < cleared s.len m
      → s.run i ≡ false
  down_at s m e h = subst (λ x. (i : ℕ) → i < cleared s.len x → s.run i ≡ false) e h.down

  MainStep-Inv : {s t : Program Q} → MainStep n s t → Inv n s → Inv n t
  MainStep-Inv {s} (creates k e lt room) h =
      let (same, le) = subst (Counted n s.len) e h.counted in
      record {
        counted = (omega (arith, same), omega arith);
        few = omega (arith, same);
        known = omega (arith, h.known);
        down = λ i below. absurd (omega arith);
        over = λ i below. absurd (omega arith);
        idle = λ i le. h.idle i (omega arith);
      }
  MainStep-Inv (uncounted k e lt full) h = absurd (omega arith)
  MainStep-Inv {s} (not_created k e lt) h =
      goes_to s (stopping 0) _ tt (λ i below. absurd (omega arith))
        (λ i below. absurd (omega arith)) h
  MainStep-Inv {s} (all_created k e le) h =
      goes_to s waiting _ tt (λ i below. absurd (omega arith)) (λ i below. absurd (omega arith)) h
  MainStep-Inv {s} (signal e) h =
      goes_to s (stopping 0) _ tt (λ i below. absurd (omega arith))
        (λ i below. absurd (omega arith)) h
  MainStep-Inv {s} (stops k e lt) h =
      goes_to s (stopping (suc k)) _ tt
        (λ i below. elim (Bool-cases (k == i)) [
          | inl same ↦ rw same refl
          | inr other ↦ rw other (down_at s (stopping k) e h i (ground (arith, other)))
        ])
        (λ i below. absurd (omega arith)) h
  MainStep-Inv {s} (all_stopped k e le) h =
      goes_to s (joining 0) _ tt (λ i below. down_at s (stopping k) e h i (omega arith))
        (λ i below. absurd (omega arith)) h
  MainStep-Inv {s} (joins k e lt end) h =
      goes_to s (joining (suc k)) _ tt (down_at s (joining k) e h)
        (λ i below. elim (Bool-cases (k == i)) [
          | inl same ↦ subst (λ j. HasEnded (s.threads.pc j)) (==_eq k i same) end
          | inr other ↦ over_at s (joining k) e h i (ground (arith, other))
        ])
        h
  MainStep-Inv {s} (all_joined k e le) h =
      goes_to s (closing 0) _ tt (down_at s (joining k) e h)
        (λ i below. over_at s (joining k) e h i (omega arith)) h
  MainStep-Inv {s} (closes k e lt) h =
      goes_to s (closing (suc k)) _ tt (down_at s (closing k) e h) (over_at s (closing k) e h) h
  MainStep-Inv {s} (all_closed k e le) h =
      goes_to s freeing _ tt (down_at s (closing k) e h) (over_at s (closing k) e h) h
  MainStep-Inv {s} (frees e) h =
      goes_to s destroying _ tt (down_at s freeing e h) (over_at s freeing e h) h
  MainStep-Inv {s} (destroys e) h =
      goes_to s finished _ tt (down_at s destroying e h) (over_at s destroying e h) h

  module _ (queue : Queue Q) (sfd : ℕ → ℕ) where
    pub Step-Inv : {s t : Program Q} → Step queue sfd n s t → Inv n s → Inv n t
    Step-Inv (of_main st) h = MainStep-Inv st h
    Step-Inv (of_thread st below heeds) h = record {
      counted = h.counted;
      few = h.few;
      known = h.known;
      down = h.down;
      over = λ i lt. ended_stay queue sfd st i (h.over i lt);
      idle = λ i le. others_stay queue sfd st i (ground arith) ∙ h.idle i le;
    }

    pub Reach-Inv : {s t : Program Q} → Inv n s → Reach queue sfd n s t → Inv n t
    Reach-Inv h start = h
    Reach-Inv h (later r st) = Step-Inv st (Reach-Inv h r)

  pub init-Inv : (q : Q) → Inv n (init q)
  init-Inv q = record {
    counted = (refl, omega arith);
    few = omega arith;
    known = refl;
    down = λ i lt. absurd (omega arith);
    over = λ i lt. absurd (omega arith);
    idle = λ i le. refl;
  }

-- The threads take their steps as they do without `main`.
abbrev pub threads_path :
    {Q : Type 0} (queue : Queue Q) (sfd : ℕ → ℕ) {n : ℕ} {s t : Program Q}
    → Reach queue sfd n s t
    → Threads.Reach queue sfd s.threads t.threads
threads_path queue sfd start = Threads.start
threads_path queue sfd (later r (of_main (creates k e lt room))) = threads_path queue sfd r
threads_path queue sfd (later r (of_main (uncounted k e lt full))) = threads_path queue sfd r
threads_path queue sfd (later r (of_main (not_created k e lt))) = threads_path queue sfd r
threads_path queue sfd (later r (of_main (all_created k e le))) = threads_path queue sfd r
threads_path queue sfd (later r (of_main (signal e))) = threads_path queue sfd r
threads_path queue sfd (later r (of_main (stops k e lt))) = threads_path queue sfd r
threads_path queue sfd (later r (of_main (all_stopped k e le))) = threads_path queue sfd r
threads_path queue sfd (later r (of_main (joins k e lt end))) = threads_path queue sfd r
threads_path queue sfd (later r (of_main (all_joined k e le))) = threads_path queue sfd r
threads_path queue sfd (later r (of_main (closes k e lt))) = threads_path queue sfd r
threads_path queue sfd (later r (of_main (all_closed k e le))) = threads_path queue sfd r
threads_path queue sfd (later r (of_main (frees e))) = threads_path queue sfd r
threads_path queue sfd (later r (of_main (destroys e))) = threads_path queue sfd r
threads_path queue sfd (later r (of_thread st below heeds)) =
    Threads.later (threads_path queue sfd r) st
