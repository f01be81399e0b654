-- ===== src/OldChat/Program/Shutdown.antt =====
-- The end of the program of udpchat/src/main.old.c.
use csockets.Base.{
  ℕ, ◌+◌, ◌≤◌, ◌<◌, ◌≡◌, refl, sym, ap, ◌∙◌, ◌⊎◌, inl, inr, Bool, false, List, [], Option-cases,
  arith,
}
use native.Mathlib.Decide.{dec_lt}
use csockets.Chat.Master.{max_bind_count}
use csockets.OldChat.{User, Queue}
use csockets.OldChat.Admission.{Fifo}
use csockets.OldChat.Threads.Exclusion.{critical}
use csockets.OldChat.Threads.Occupied.{unlock_errors}
use csockets.OldChat.Threads.Progress.{Reach-Occupied}
use csockets.OldChat.Threads.Owed.{serve_all, all_added}
use csockets.OldChat.Threads.Order.{Reach-serve_all}
use csockets.OldChat.Program.{
  MainPc, creating, stopping, joining, closing, waiting, freeing, destroying, finished, Program,
  init, HasEnded, Reach,
}
use csockets.OldChat.Program.Invariant.{joined, Reach-Inv, init-Inv, threads_path}

-- How much is given back: the sockets, the queue and the two mutexes.
abbrev pub given_back : ℕ → MainPc → ℕ
given_back n (creating k) = 0
given_back n waiting = 0
given_back n (stopping k) = 0
given_back n (joining k) = 0
given_back n (closing k) = k
given_back n freeing = n
given_back n destroying = n + 1
given_back n finished = n + 3

pub all_joined_or_nothing : (n len : ℕ) (m : MainPc) → (given_back n m ≡ 0) ⊎ (joined len m ≡ len)
all_joined_or_nothing n len (creating k) = inl refl
all_joined_or_nothing n len waiting = inl refl
all_joined_or_nothing n len (stopping k) = inl refl
all_joined_or_nothing n len (joining k) = inl refl
all_joined_or_nothing n len (closing k) = inr refl
all_joined_or_nothing n len freeing = inr refl
all_joined_or_nothing n len destroying = inr refl
all_joined_or_nothing n len finished = inr refl

module _ {Q : Type 0} (queue : Queue Q) (sfd : ℕ → ℕ) {n : ℕ} (fits : n ≤ max_bind_count) where
  -- For at most MAX_BIND_COUNT sockets, in every order of the steps of `main` and the threads: no socket
  -- is closed, and neither the queue nor a mutex is given back, before each thread that was created has
  -- returned.
  pub Reach-given_back :
      {q : Q} {s : Program Q}
      → Reach queue sfd n (init q) s
      → (given_back n s.main ≡ 0) ⊎ ((i : ℕ) → i < s.created → HasEnded (s.threads.pc i))
  Reach-given_back {q} {s} r =
      let h = Reach-Inv fits queue sfd (init-Inv fits q) r in
      elim (all_joined_or_nothing n s.len s.main) [
        | inl e ↦ inl e
        | inr all ↦ inr (λ i lt. h.over i (omega (arith, all, h.known)))
      ]

  -- A thread that is not created, or has ended, is not between the lock and the unlock.
  outside :
      {q : Q} {s : Program Q}
      → Reach queue sfd n (init q) s
      → s.main ≡ finished
      → (i : ℕ) → critical (s.threads.pc i) ≡ false
  outside {q} {s} r end i =
      let h = Reach-Inv fits queue sfd (init-Inv fits q) r in
      let all : joined s.len s.main ≡ s.len = ap (joined s.len) end in
      elim (dec_lt i s.created) [
        | yes lt ↦ let (code, e) = h.over i (omega (arith, all, h.known)) in ap critical e
        | no ge ↦ ap critical (h.idle i (omega arith))
      ]

  module _ (same : User → User → Bool) (cap : ℕ) (users : Q → List User)
      (fifo : Fifo queue same cap users) (pos : 1 ≤ cap) where
    -- For a queue that keeps its order and its bound and is empty at the start, at most MAX_BIND_COUNT
    -- sockets, and no failure to unlock the mutex: when the program is at its end, however `main` and the
    -- threads took turns, the datagrams that were sent are those of a server with one thread that took the
    -- messages one after the other, in the order in which their senders were put into the queue.
    pub finished-serve_all :
        {q : Q} {s : Program Q}
        → users q ≡ []
        → (r : Reach queue sfd n (init q) s)
        → unlock_errors queue sfd (threads_path queue sfd r) ≡ 0
        → s.main ≡ finished
        → s.threads.sent ≡ (serve_all same cap (all_added queue sfd (threads_path queue sfd r))).1
    finished-serve_all {q} {s} none_yet r z end =
        let path = threads_path queue sfd r in
        elim (Option-cases s.threads.holder) [
          | inl free ↦
              let (_, sent, _) =
                Reach-serve_all queue sfd same cap users fifo pos none_yet path free in
              sent
          | inr (k, has) ↦
              let inside = Reach-Occupied queue sfd same cap users fifo pos none_yet path z k has in
              absurd (cc (sym inside ∙ outside r end k))
        ]
