-- ===== src/OldChat/Threads/Order.antt =====
-- That the threads of udpchat/src/main.old.c together act like one.
use mathlib.Core.List.{append-nil, foldl-append}
use csockets.Base.{
  ℕ, ◌≤◌, ◌≡◌, refl, sym, ap, subst, ◌∙◌, Bool, true, false, none, some, List, [], ◌∷◌, ◌++◌, map,
  length, update, arith,
}
use csockets.OldChat.{User, Sending, Queue, sending, active_user_send_func, add_user}
use csockets.OldChat.Admission.{Fifo, admit, visit-send, add_user-admit}
use csockets.OldChat.Threads.{
  Pc, testing, receiving, unlocking, locking, adding, casting, ended, System, init, Step, goes,
  leaves, again, broken, receives, lock_fails, locks, adds, add_fails, casts, unlocks, unlock_fails,
  Reach, start, later,
}
use csockets.OldChat.Threads.Exclusion.{Exclusive, critical, Reach-Exclusive}
use csockets.OldChat.Threads.Owed.{
  Message, serve, serve_all, added, all_added, is_casting, Owes, Owes-out, Owes-in, Owes-quiet,
}

module _ {Q : Type 0} (queue : Queue Q) (sfd : ℕ → ℕ) (same : User → User → Bool) (cap : ℕ)
    (users : Q → List User) (fifo : Fifo queue same cap users) (pos : 1 ≤ cap) where
  -- The shared state is that of one thread which served the messages `ms`.
  pub record Serial (ms : List Message) (s : System Q) : Type 0 where
    pub queued : users s.queue ≡ (serve_all same cap ms).0
    pub owed : Owes sfd s.holder s.pc s.sent (serve_all same cap ms)
    pub bounded : length (users s.queue) ≤ cap

  -- A step that leaves queue, mutex and datagrams alone.
  Serial-quiet :
      (ms : List Message) (s : System Q) (i : ℕ) (p p' : Pc)
      → s.pc i ≡ p
      → is_casting p ≡ false
      → is_casting p' ≡ false
      → Serial ms s
      → Serial (ms ++ []) (record s { pc = update s.pc i p' })
  Serial-quiet ms s i p p' e was is h = rw (append-nil ms) (record {
    queued = h.queued;
    owed = Owes-quiet sfd s.holder s.pc i p' s.sent _ (ap is_casting e ∙ was) is h.owed;
    bounded = h.bounded;
  })

  Serial-locks :
      (ms : List Message) (s : System Q) (i : ℕ) (buffer : List ℕ) (user : User)
      → s.holder ≡ none
      → Serial ms s
      → Serial (ms ++ []) (record s { holder = some i; pc = update s.pc i (adding buffer user) })
  Serial-locks ms s i buffer user free h = rw (append-nil ms) (record {
    queued = h.queued;
    owed =
        Owes-in sfd (some i) s.pc i (adding buffer user) s.sent _ refl
          (subst (λ o. Owes sfd o s.pc s.sent (serve_all same cap ms)) free h.owed);
    bounded = h.bounded;
  })

  Serial-adds :
      (ms : List Message) (s : System Q) (i : ℕ) (buffer : List ℕ) (user : User) (q : Q)
      → s.pc i ≡ adding buffer user
      → s.holder ≡ some i
      → add_user queue s.queue user ≡ (true, q)
      → Serial ms s
      → Serial
          (ms ++ ((sfd i, buffer, user) ∷ []))
          (record s { queue = q; pc = update s.pc i (casting buffer) })
  Serial-adds ms s i buffer user q e has f h =
      let (q', e', admitted, le) =
        add_user-admit queue same cap users fifo pos s.queue user h.bounded in
      let same_queue : q ≡ q' = ap (λ (r : Bool × Q). r.1) (sym f ∙ e') in
      let served = serve_all same cap ms in
      let us = admit same cap user served.0 in
      let now : users q ≡ us =
        ap users same_queue ∙ (admitted ∙ ap (admit same cap user) h.queued) in
      let owed_before : s.sent ≡ served.1 =
        Owes-out sfd s.holder s.pc i (adding buffer user) s.sent served has e h.owed in
      let next = sym (foldl-append (serve same cap) ([], []) ms ((sfd i, buffer, user) ∷ [])) in
      record {
        queued = now ∙ ap (λ (p : List User × List Sending). p.0) next;
        owed = subst (Owes sfd s.holder (update s.pc i (casting buffer)) s.sent) next (
            Owes-in sfd s.holder s.pc i (casting buffer) s.sent _ has
              (ap (λ l. l ++ map (sending (sfd i) buffer) us) owed_before));
        bounded = subst (λ x. length (users x) ≤ cap) (sym same_queue) le;
      }

  Serial-casts :
      (ms : List Message) (s : System Q) (i : ℕ) (buffer : List ℕ)
      → s.pc i ≡ casting buffer
      → s.holder ≡ some i
      → Serial ms s
      → Serial (ms ++ []) (record s {
        sent = queue.every (active_user_send_func (sfd i) buffer) s.queue s.sent;
        pc = update s.pc i unlocking;
      })
  Serial-casts ms s i buffer e has h =
      let served = serve_all same cap ms in
      let sends =
        fifo.visits (active_user_send_func (sfd i) buffer) s.queue s.sent
        ∙ (visit-send (sfd i) buffer (users s.queue) s.sent
            ∙ (ap (λ us. s.sent ++ map (sending (sfd i) buffer) us) h.queued
                ∙ Owes-out sfd s.holder s.pc i (casting buffer) s.sent served has e h.owed)) in
      rw (append-nil ms) (record {
        queued = h.queued;
        owed = Owes-in sfd s.holder s.pc i unlocking _ served has sends;
        bounded = h.bounded;
      })

  Serial-unlocks :
      (ms : List Message) (s : System Q) (i : ℕ)
      → s.pc i ≡ unlocking
      → s.holder ≡ some i
      → Serial ms s
      → Serial (ms ++ []) (record s { holder = none; pc = update s.pc i testing })
  Serial-unlocks ms s i e has h = rw (append-nil ms) (record {
    queued = h.queued;
    owed = Owes-out sfd s.holder s.pc i unlocking s.sent (serve_all same cap ms) has e h.owed;
    bounded = h.bounded;
  })

  Step-Serial :
      {s t : System Q} (ms : List Message) (st : Step queue sfd s t)
      → Exclusive s.holder s.pc
      → Serial ms s
      → Serial (ms ++ added queue sfd st) t
  Step-Serial {s} ms (goes i e) x h = Serial-quiet ms s i testing receiving e refl refl h
  Step-Serial {s} ms (leaves i e) x h = Serial-quiet ms s i testing (ended 0) e refl refl h
  Step-Serial {s} ms (again i e) x h = Serial-quiet ms s i receiving testing e refl refl h
  Step-Serial {s} ms (broken i e) x h = Serial-quiet ms s i receiving (ended 1) e refl refl h
  Step-Serial {s} ms (receives i buffer addr len e) x h =
      Serial-quiet ms s i receiving _ e refl refl h
  Step-Serial {s} ms (lock_fails i buffer user e) x h =
      Serial-quiet ms s i (locking buffer user) (ended 1) e refl refl h
  Step-Serial {s} ms (locks i buffer user e free) x h = Serial-locks ms s i buffer user free h
  Step-Serial {s} ms (adds i buffer user q e f) x h =
      Serial-adds ms s i buffer user q e (x i (ap critical e)) f h
  Step-Serial {s} ms (add_fails i buffer user q e f) x h =
      let (q', e', admitted, le) =
        add_user-admit queue same cap users fifo pos s.queue user h.bounded in
      absurd (cc (ap (λ (r : Bool × Q). r.0) (sym f ∙ e')))
  Step-Serial {s} ms (casts i buffer e) x h = Serial-casts ms s i buffer e (x i (ap critical e)) h
  Step-Serial {s} ms (unlocks i e) x h = Serial-unlocks ms s i e (x i (ap critical e)) h
  Step-Serial {s} ms (unlock_fails i e) x h = Serial-quiet ms s i unlocking testing e refl refl h

  pub Reach-Serial :
      {q : Q} {s : System Q}
      → users q ≡ []
      → (r : Reach queue sfd (init q) s) → Serial (all_added queue sfd r) s
  Reach-Serial none_yet start = record {
    queued = none_yet;
    owed = refl;
    bounded = rw none_yet (omega arith);
  }
  Reach-Serial none_yet (later r st) =
      Step-Serial (all_added queue sfd r) st (Reach-Exclusive queue sfd r) (Reach-Serial none_yet r)

  -- For a queue that keeps its order and its bound and is empty at the start: in every order of the
  -- steps of any number of threads, whenever no thread holds the mutex, the users in the queue and the
  -- datagrams that were sent are those of a server with one thread that took the messages one after
  -- the other, in the order in which their senders were put into the queue; and the queue is within
  -- its bound.
  pub Reach-serve_all :
      {q : Q} {s : System Q}
      → users q ≡ []
      → (r : Reach queue sfd (init q) s) → s.holder ≡ none
      → let served = serve_all same cap (all_added queue sfd r) in
        (users s.queue ≡ served.0) × (s.sent ≡ served.1) × (length (users s.queue) ≤ cap)
  Reach-serve_all {s} none_yet r free =
      let h = Reach-Serial none_yet r in
      (
        h.queued,
        subst (λ o. Owes sfd o s.pc s.sent (serve_all same cap (all_added queue sfd r))) free
            h.owed,
        h.bounded,
      )
