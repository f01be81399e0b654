-- ===== src/OldChat/Relay.antt =====
-- What a thread of udpchat/src/main.old.c sends, and to whom.
use mathlib.Core.List.{append_assoc, append-nil}
use csockets.Base.{
  ℕ, ◌≤◌, ◌≡◌, refl, sym, ap, ◌∙◌, Bool, true, false, List, [], ◌∷◌, ◌++◌, map, if◌then◌else◌,
  length, All, take,
}
use csockets.OldChat.{
  User, Sending, Queue, Receipt, packet, again, interrupted, broken, Turn, World, returns, loops,
  blocks, sending, active_user_send_func, after, add_user, broadcast, with_lock, receive, one_turn,
  rw_loop_func,
}
use csockets.OldChat.Admission.{Fifo, admit, relay, Works, visit-send, add_user-admit}

one_turn-packet :
    {Q : Type 0} (queue : Queue Q) (sfd : ℕ) (t : Turn) (w : World Q) (buffer addr : List ℕ)
    (len : ℕ)
    → t.receipt ≡ packet buffer addr len
    → Works t
    → one_turn queue sfd t w
      ≡ with_lock queue sfd t buffer (record { addr = take len addr; addr_len = len }) w
unfolding one_turn receive
one_turn-packet queue sfd t w buffer addr len e works =
    ap (λ b. if b then receive queue sfd t t.receipt w else (returns 0, w)) works.runs
    ∙ ap (λ r. receive queue sfd t r w) e

broadcast_failed :
    {Q : Type 0} (queue : Queue Q) (sfd : ℕ) (buffer : List ℕ) (fine : Bool) (p : Bool × Q)
    (sent : List Sending)
    → p.0 ≡ false
    → broadcast queue sfd buffer fine p sent
      ≡ (returns 1, record { queue = p.1; locked = true; sent = sent })
unfolding broadcast
broadcast_failed queue sfd buffer fine (true, q) sent e = absurd (cc e)
broadcast_failed queue sfd buffer fine (false, q) sent e = refl

module _ {Q : Type 0} (queue : Queue Q) (same : User → User → Bool) (cap : ℕ)
    (users : Q → List User) (fifo : Fifo queue same cap users) (pos : 1 ≤ cap) where
  with_lock-sends :
      (sfd : ℕ) (t : Turn) (buffer : List ℕ) (user : User) (w : World Q)
      → Works t
      → w.locked ≡ false
      → length (users w.queue) ≤ cap
      → (q' : Q) × (with_lock queue sfd t buffer user w ≡ (
        loops,
        record { queue = q'; locked = false; sent = w.sent ++ map (sending sfd buffer) (users q') },
      ))
        × (users q' ≡ admit same cap user (users w.queue))
        × (length (users q') ≤ cap)
  unfolding with_lock broadcast
  with_lock-sends sfd t buffer user w works free le =
      let (q', e, admitted, le') = add_user-admit queue same cap users fifo pos w.queue user le in
      let sends =
        fifo.visits (active_user_send_func sfd buffer) q' w.sent
        ∙ visit-send sfd buffer (users q') w.sent in
      (q', rw (works.locks, free, e, works.unlocks, sends) refl, admitted, le')

  -- What `rw_loop_func` does from a state on.
  abbrev Relays : ℕ → List Turn → World Q → Type 0
  Relays sfd ts w =
      (w' : World Q) × (rw_loop_func queue sfd ts w ≡ (loops, w'))
      × (users w'.queue ≡ (relay same cap sfd ts (users w.queue)).0)
      × (w'.sent ≡ w.sent ++ (relay same cap sfd ts (users w.queue)).1)
      × (w'.locked ≡ false)
      × (length (users w'.queue) ≤ cap)

  then-Relays :
      (sfd : ℕ) (t : Turn) (ts : List Turn) (w v : World Q)
      → one_turn queue sfd t w ≡ (loops, v)
      → (relay same cap sfd ts (users v.queue)).0 ≡ (relay same cap sfd (t ∷ ts) (users w.queue)).0
      → v.sent ++ (relay same cap sfd ts (users v.queue)).1
        ≡ w.sent ++ (relay same cap sfd (t ∷ ts) (users w.queue)).1
      → Relays sfd ts v
      → Relays sfd (t ∷ ts) w
  unfolding rw_loop_func after
  then-Relays sfd t ts w v turn kept shown (w', goes, kept', shown', free, le) = (
    w',
    ap (λ r. after r (rw_loop_func queue sfd ts)) turn ∙ goes,
    kept' ∙ kept,
    shown' ∙ shown,
    free,
    le,
  )

  turn-Relays :
      (sfd : ℕ) (t : Turn) (receipt : Receipt) (ts : List Turn) (w : World Q)
      → t.receipt ≡ receipt
      → Works t
      → w.locked ≡ false
      → length (users w.queue) ≤ cap
      → ((v : World Q) → v.locked ≡ false → length (users v.queue) ≤ cap → Relays sfd ts v)
      → Relays sfd (t ∷ ts) w
  unfolding one_turn receive
  turn-Relays sfd t again ts w e works free le next =
      then-Relays sfd t ts w w (rw (works.runs, e) refl) (rw e refl) (rw e refl) (next w free le)
  turn-Relays sfd t interrupted ts w e works free le next =
      then-Relays sfd t ts w w (rw (works.runs, e) refl) (rw e refl) (rw e refl) (next w free le)
  turn-Relays sfd t broken ts w e works free le next = absurd (works.receives e)
  turn-Relays sfd t (packet buffer addr len) ts w e works free le next =
      let user : User = record { addr = take len addr; addr_len = len } in
      let (q', sends, admitted, le') = with_lock-sends sfd t buffer user w works free le in
      let out = map (sending sfd buffer) (users q') in
      let v : World Q = record { queue = q'; locked = false; sent = w.sent ++ out } in
      then-Relays sfd t ts w v (one_turn-packet queue sfd t w buffer addr len e works ∙ sends)
        (ap (λ us. (relay same cap sfd ts us).0) admitted ∙ rw e refl)
        (append_assoc w.sent out (relay same cap sfd ts (users q')).1
          ∙ (ap (λ us. w.sent ++ (map (sending sfd buffer) us ++ (relay same cap sfd ts us).1))
                admitted
              ∙ rw e refl))
        (next v refl le')

  -- For a queue that keeps its order and its bound, a thread that is alone and whose calls do not fail
  -- stays in its loop and leaves the mutex unlocked; the users in the queue and the datagrams that were
  -- sent are those of `relay`: a sender that is not in the queue is put at its end, in place of the
  -- first one where the queue is full, and each message goes to every user in the queue.
  pub rw_loop_func-relay :
      (sfd : ℕ) (ts : List Turn) (w : World Q)
      → All Works ts
      → w.locked ≡ false
      → length (users w.queue) ≤ cap
      → (w' : World Q) × (rw_loop_func queue sfd ts w ≡ (loops, w'))
        × (users w'.queue ≡ (relay same cap sfd ts (users w.queue)).0)
        × (w'.sent ≡ w.sent ++ (relay same cap sfd ts (users w.queue)).1)
        × (w'.locked ≡ false)
        × (length (users w'.queue) ≤ cap)
  unfolding rw_loop_func
  rw_loop_func-relay sfd [] w works free le = (w, refl, refl, sym (append-nil w.sent), free, le)
  rw_loop_func-relay sfd (t ∷ ts) w (one, rest) free le =
      turn-Relays sfd t t.receipt ts w refl one free le
        (λ v f l. rw_loop_func-relay sfd ts v rest f l)

-- Where a user cannot be put into the queue, the thread returns 1 with the mutex locked, and any
-- thread that then gets a datagram waits for the mutex, with nothing sent.
pub one_turn-held :
    {Q : Type 0} (queue : Queue Q) (sfd sfd' : ℕ) (t t' : Turn) (w : World Q)
    (buffer buffer' addr addr' : List ℕ) (len len' : ℕ)
    → Works t
    → Works t'
    → t.receipt ≡ packet buffer addr len
    → t'.receipt ≡ packet buffer' addr' len'
    → w.locked ≡ false
    → (add_user queue w.queue (record { addr = take len addr; addr_len = len })).0 ≡ false
    → (w' : World Q) × (one_turn queue sfd t w ≡ (returns 1, w'))
      × (w'.sent ≡ w.sent)
      × (one_turn queue sfd' t' w' ≡ (blocks, w'))
unfolding with_lock
one_turn-held queue sfd sfd' t t' w buffer buffer' addr addr' len len' works works' e e' free
      fails =
    let user : User = record { addr = take len addr; addr_len = len } in
    let w' : World _ = record {
      queue = (add_user queue w.queue user).1;
      locked = true;
      sent = w.sent;
    } in
    (
      w',
      one_turn-packet queue sfd t w buffer addr len e works
          ∙ rw (works.locks, free)
              (broadcast_failed queue sfd buffer t.unlock_fine (add_user queue w.queue user) w.sent
                fails),
      refl,
      one_turn-packet queue sfd' t' w' buffer' addr' len' e' works' ∙ rw works'.locks refl,
    )
