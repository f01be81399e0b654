-- ===== src/UdpEcho/Threads/Invariant.antt =====
-- What holds of `main` of udpecho/main.c and its threads in every order of their steps.
use csockets.Base.{ℕ, ◌≤◌, refl, subst, arith}
use csockets.Chat.Master.{max_bind_count}
use csockets.UdpEcho.Threads.{
  testing, receiving, replying, ended, State, Own, creates, uncounted, all_created, stops,
  all_stopped, joins, all_joined, closes, all_closed, goes, leaves, times_out, replies, Step, own,
  not_created, signal, arrives, broken, not_sent, Reach, start, later,
}
use csockets.UdpEcho.Threads.Moves.{
  Counted, Inv, moved, creates-Inv, waits-Inv, to_stop-Inv, stops-Inv, stopped-Inv, joins-Inv,
  joined-Inv, closes-Inv, closed-Inv,
}

module _ {n : ℕ} (fits : n ≤ max_bind_count) where
  Own-Inv : {s t : State} → Own n s t → Inv n s → Inv n t
  Own-Inv {s} (creates k e lt room) h = creates-Inv n s h k e lt
  Own-Inv {s} (uncounted k e lt full) h = absurd (omega arith)
  Own-Inv {s} (all_created k e le) h = waits-Inv n s h k e
  Own-Inv {s} (stops k e lt) h = stops-Inv n s h k e lt
  Own-Inv {s} (all_stopped k e le) h = stopped-Inv n s h k e le
  Own-Inv {s} (joins k e lt end) h = joins-Inv n s h k e lt end
  Own-Inv {s} (all_joined k e le) h = joined-Inv n s h k e le
  Own-Inv {s} (closes k e lt) h = closes-Inv n s h k e lt
  Own-Inv {s} (all_closed k e le) h = closed-Inv n s h k e
  Own-Inv {s} (goes i e f) h = moved n s i testing receiving e (λ x. cc x) (λ x. cc x) (λ x. cc x) h
  Own-Inv {s} (leaves i e f) h = moved n s i testing ended e (λ x. cc x) (λ x. cc x) (λ x. cc x) h
  Own-Inv {s} (times_out i e) h =
      moved n s i receiving testing e (λ x. cc x) (λ x. cc x) (λ x. cc x) h
  Own-Inv {s} (replies i e) h = moved n s i replying testing e (λ x. cc x) (λ x. cc x) (λ x. cc x) h

  pub Step-Inv : {s t : State} → Step n s t → Inv n s → Inv n t
  Step-Inv (own o) h = Own-Inv o h
  Step-Inv {s} (not_created k e lt) h =
      let (same, le) = subst (Counted n s.len) e h.counted in
      to_stop-Inv n s h (omega (arith, same, le))
  Step-Inv {s} (signal e) h =
      let (le, _) = subst (Counted n s.len) e h.counted in to_stop-Inv n s h le
  Step-Inv {s} (arrives i e) h =
      moved n s i receiving replying e (λ x. cc x) (λ x. cc x) (λ x. cc x) h
  Step-Inv {s} (broken i e) h = moved n s i receiving ended e (λ x. cc x) (λ x. cc x) (λ x. cc x) h
  Step-Inv {s} (not_sent i e) h = moved n s i replying ended e (λ x. cc x) (λ x. cc x) (λ x. cc x) h

  pub Reach-Inv : {s : State} → Reach n s → Inv n s
  Reach-Inv start = record {
    counted = (refl, omega arith);
    missing = λ i le. refl;
    present = λ i lt. absurd (omega arith);
    down = λ i lt. refl;
    over = λ i lt. absurd (omega arith);
  }
  Reach-Inv (later r st) = Step-Inv st (Reach-Inv r)
