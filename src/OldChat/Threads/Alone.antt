-- ===== src/OldChat/Threads/Alone.antt =====
-- That a thread of udpchat/src/main.old.c which runs alone takes the steps of the relation.
use csockets.Base.{
  ℕ, ◌≡◌, refl, sym, ap, subst, inl, inr, Bool, true, false, not, Option, none, some, List, [], ◌∷◌,
  Bool-cases, update, update_self, take, if◌then◌else◌,
}
use csockets.OldChat.{
  User, Queue, Turn, Receipt, packet, interrupted, Status, returns, loops, blocks, World, add_user,
  active_user_send_func, after, broadcast, with_lock, receive, one_turn, rw_loop_func,
}
use csockets.OldChat
use csockets.OldChat.Threads
use csockets.OldChat.Threads.{
  Pc, testing, receiving, unlocking, locking, adding, casting, ended, System, Step, goes, leaves,
  receives, lock_fails, locks, adds, add_fails, casts, unlocks, unlock_fails, Reach, start, later,
}

-- Where a thread stands.
abbrev pub At : Status → Pc → Type 0
At loops p = p ≡ testing
At (returns n) p = p ≡ ended n
At blocks p = (buffer : List ℕ) × (user : User) × (p ≡ locking buffer user)

abbrev pub Mutex : Bool → Option ℕ → Type 0
Mutex false holder = holder ≡ none
Mutex true holder = (k : ℕ) × (holder ≡ some k)

-- The state of the threads shows what the function knows, where it is run by thread `i`.
pub record Agrees {Q : Type 0} (i : ℕ) (status : Status) (w : World Q) (s : System Q) : Type 0 where
  pub queued : s.queue ≡ w.queue
  pub sent_so_far : s.sent ≡ w.sent
  pub mutex : Mutex w.locked s.holder
  pub place : At status (s.pc i)

module _ {Q : Type 0} (queue : Queue Q) (sfd : ℕ → ℕ) (i : ℕ) where
  abbrev Steps : System Q → Status × World Q → Type 0
  Steps s r = (t : System Q) × (path : Reach queue sfd s t) × Agrees i r.0 r.1 t

  Reach-then : {s t u : System Q} → Reach queue sfd s t → Reach queue sfd t u → Reach queue sfd s u
  Reach-then r start = r
  Reach-then r (later q st) = later (Reach-then r q) st

  prepended : {s m : System Q} (r : Status × World Q) → Step queue sfd s m → Steps m r → Steps s r
  prepended r st (t, path, agrees) = (t, Reach-then (later start st) path, agrees)

  -- Behind a broadcast.
  unlocking-Steps :
      (s : System Q) (fine : Bool)
      → s.pc i ≡ unlocking
      → s.holder ≡ some i
      → Steps s (loops, record { queue = s.queue; locked = not fine; sent = s.sent })
  unlocking-Steps s true e has = (
    _,
    later start (unlocks i e),
    record { queued = refl; sent_so_far = refl; mutex = refl; place = update_self s.pc i testing },
  )
  unlocking-Steps s false e has = (
    _,
    later start (unlock_fails i e),
    record {
      queued = refl;
      sent_so_far = refl;
      mutex = (i, has);
      place = update_self s.pc i testing;
    },
  )

  -- With the mutex.
  adding-Steps :
      (s : System Q) (buffer : List ℕ) (user : User) (fine : Bool) (p : Bool × Q)
      → s.pc i ≡ adding buffer user
      → s.holder ≡ some i
      → add_user queue s.queue user ≡ p
      → Steps s (broadcast queue (sfd i) buffer fine p s.sent)
  unfolding broadcast
  adding-Steps s buffer user fine (true, q) e has f = prepended _ (adds i buffer user q e f) (
      prepended _ (casts i buffer (update_self s.pc i (casting buffer)))
        (unlocking-Steps _ fine (update_self (update s.pc i (casting buffer)) i unlocking) has))
  adding-Steps s buffer user fine (false, q) e has f = (
    _,
    later start (add_fails i buffer user q e f),
    record {
      queued = refl;
      sent_so_far = refl;
      mutex = (i, has);
      place = update_self s.pc i (ended 1);
    },
  )

  -- With a datagram.
  locking-Steps :
      (s : System Q) (w : World Q) (t : Turn) (buffer : List ℕ) (user : User)
      → s.queue ≡ w.queue
      → s.sent ≡ w.sent
      → Mutex w.locked s.holder
      → s.pc i ≡ locking buffer user
      → Steps s (with_lock queue (sfd i) t buffer user w)
  unfolding with_lock
  locking-Steps s w t buffer user qe se m e = elim (Bool-cases t.lock_fine) [
    | inr fails ↦ rw fails (
      _,
      later start (lock_fails i buffer user e),
      record { queued = qe; sent_so_far = se; mutex = m; place = update_self s.pc i (ended 1) },
    )
    | inl fine ↦ elim (Bool-cases w.locked) [
      | inl held ↦
          rw (fine, held)
            (
              s,
              start,
              record {
                queued = qe;
                sent_so_far = se;
                mutex = rw held at m;
                place = (buffer, user, e);
              },
            )
      | inr free ↦
          let none_has : s.holder ≡ none = rw free at m in
          rw (fine, free, sym se)
            (prepended _ (locks i buffer user e none_has) (
              adding-Steps _ buffer user t.unlock_fine (add_user queue w.queue user)
                (update_self s.pc i (adding buffer user)) refl
                (ap (λ q. add_user queue q user) qe)))
    ]
  ]

  receiving-Steps :
      (s : System Q) (w : World Q) (t : Turn) (receipt : Receipt)
      → s.queue ≡ w.queue
      → s.sent ≡ w.sent
      → Mutex w.locked s.holder
      → s.pc i ≡ receiving
      → Steps s (receive queue (sfd i) t receipt w)
  unfolding receive
  receiving-Steps s w t OldChat.again qe se m e = (
    _,
    later start (Threads.again i e),
    record { queued = qe; sent_so_far = se; mutex = m; place = update_self s.pc i testing },
  )
  receiving-Steps s w t interrupted qe se m e = (
    _,
    later start (Threads.again i e),
    record { queued = qe; sent_so_far = se; mutex = m; place = update_self s.pc i testing },
  )
  receiving-Steps s w t OldChat.broken qe se m e = (
    _,
    later start (Threads.broken i e),
    record { queued = qe; sent_so_far = se; mutex = m; place = update_self s.pc i (ended 1) },
  )
  receiving-Steps s w t (packet buffer addr len) qe se m e =
      prepended _ (receives i buffer addr len e) (
        locking-Steps _ w t buffer (record { addr = take len addr; addr_len = len }) qe se m
          (update_self s.pc i _))

  turn-Steps :
      (s : System Q) (w : World Q) (t : Turn)
      → Agrees i loops w s
      → Steps s (one_turn queue (sfd i) t w)
  unfolding one_turn
  turn-Steps s w t a =
      let either : Bool → Status × World Q =
        λ b. if b then receive queue (sfd i) t t.receipt w else (returns 0, w) in
      elim (Bool-cases t.run) [
        | inl runs ↦
            subst (λ b. Steps s (either b)) (sym runs)
              (prepended _ (goes i a.place) (
                receiving-Steps _ w t t.receipt a.queued a.sent_so_far a.mutex
                  (update_self s.pc i receiving)))
        | inr stopped ↦
            subst (λ b. Steps s (either b)) (sym stopped)
              (
                _,
                later start (leaves i a.place),
                record {
                  queued = a.queued;
                  sent_so_far = a.sent_so_far;
                  mutex = a.mutex;
                  place = update_self s.pc i (ended 0);
                },
              )
      ]

  after-Steps :
      (s : System Q) (r : Status × World Q) (next : World Q → Status × World Q)
      → Steps s r
      → ((t : System Q) (w : World Q) → Agrees i loops w t → Steps t (next w))
      → Steps s (after r next)
  unfolding after
  after-Steps s (returns n, w) next h go_on = h
  after-Steps s (blocks, w) next h go_on = h
  after-Steps s (loops, w) next (t, path, a) go_on =
      let (u, more, agrees) = go_on t w a in (u, Reach-then path more, agrees)

  -- Where the threads stand, if thread `i` is at the test of its flag and runs alone for some turns,
  -- it takes the threads by steps of the relation to a state that shows what `rw_loop_func` gives for
  -- these turns: the queue, the datagrams, the mutex, and whether the thread returned, waits for the
  -- mutex or is in its loop.
  pub rw_loop_func-Agrees :
      (ts : List Turn) (w : World Q) (s : System Q)
      → Agrees i loops w s
      → (t : System Q) × (path : Reach queue sfd s t) × Agrees i
          (rw_loop_func queue (sfd i) ts w).0
          (rw_loop_func queue (sfd i) ts w).1
          t
  unfolding rw_loop_func
  rw_loop_func-Agrees [] w s a = (s, start, a)
  rw_loop_func-Agrees (t ∷ ts) w s a =
      after-Steps s (one_turn queue (sfd i) t w) (rw_loop_func queue (sfd i) ts)
        (turn-Steps s w t a) (λ u v b. rw_loop_func-Agrees ts v u b)
