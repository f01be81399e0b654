-- ===== src/OldChat/Admission.antt =====
-- The queue of active users of udpchat/src/main.old.c, and who is in it.
use mathlib.Core.List.{append_assoc, append-nil}
use csockets.Base.{
  ℕ, ◌≤◌, ◌<◌, ◌≡◌, ◌≢◌, refl, sym, ap, ◌∙◌, inl, inr, Bool, true, false, ◌||◌, List, [], ◌∷◌, ◌++◌,
  map, if◌then◌else◌, ltb, length, drop, length-append, length-drop, arith, Bool-cases, take,
}
use csockets.OldChat.{
  User, Sending, Queue, packet, again, interrupted, broken, Turn, sending, active_user_send_func,
  after_pop, after_push, add_user,
}

abbrev pub visit : (User → List Sending → List Sending) → List User → List Sending → List Sending
visit f [] sent = sent
visit f (u ∷ us) sent = visit f us (f u sent)

abbrev pub has : (User → User → Bool) → User → List User → Bool
has same user [] = false
has same user (u ∷ us) = same user u || has same user us

-- A queue that holds `users q`, first the one that `pop` takes, and at most `cap` of them.
pub record Fifo {Q : Type 0} (queue : Queue Q) (same : User → User → Bool) (cap : ℕ)
    (users : Q → List User) : Type 0 where
  pub finds : (q : Q) (u : User) → queue.includes q u ≡ has same u (users q)
  pub has_room :
      (q : Q) (u : User)
      → length (users q) < cap
      → ((queue.push q u).0 ≡ 0) × (users (queue.push q u).1 ≡ users q ++ (u ∷ []))
  pub is_full :
      (q : Q) (u : User)
      → cap ≤ length (users q)
      → ((queue.push q u).0 ≡ 1) × (users (queue.push q u).1 ≡ users q)
  pub takes_first :
      (q : Q) (v : User) (vs : List User)
      → users q ≡ v ∷ vs
      → ((queue.pop q).0 ≡ 0) × (users (queue.pop q).1 ≡ vs)
  pub visits :
      (f : User → List Sending → List Sending) (q : Q) (sent : List Sending)
      → queue.every f q sent ≡ visit f (users q) sent

-- Who is active once a user has sent something.
abbrev pub admit : (User → User → Bool) → ℕ → User → List User → List User
admit same cap user us =
    if has same user us then us else (if ltb (length us) cap then us else drop 1 us) ++ (user ∷ [])

-- What becomes of the active users, and what is sent: each message goes to all of them.
abbrev pub relay : (User → User → Bool) → ℕ → ℕ → List Turn → List User → List User × List Sending
relay same cap sfd [] us = (us, [])
relay same cap sfd (t ∷ ts) us = elim t.receipt [
  | packet buffer addr len ↦
      let us' = admit same cap (record { addr = take len addr; addr_len = len }) us in
      let (final, later) = relay same cap sfd ts us' in
      (final, map (sending sfd buffer) us' ++ later)
  | again ↦ relay same cap sfd ts us
  | interrupted ↦ relay same cap sfd ts us
  | broken ↦ relay same cap sfd ts us
]

-- The flag is set, and no call fails but for a timeout or a signal.
pub record Works (t : Turn) : Type 0 where
  pub runs : t.run ≡ true
  pub receives : t.receipt ≢ broken
  pub locks : t.lock_fine ≡ true
  pub unlocks : t.unlock_fine ≡ true

pub visit-send :
    (sfd : ℕ) (buffer : List ℕ) (us : List User) (sent : List Sending)
    → visit (active_user_send_func sfd buffer) us sent ≡ sent ++ map (sending sfd buffer) us
unfolding active_user_send_func
visit-send sfd buffer [] sent = sym (append-nil sent)
visit-send sfd buffer (u ∷ us) sent =
    visit-send sfd buffer us (sent ++ (sending sfd buffer u ∷ []))
    ∙ append_assoc sent (sending sfd buffer u ∷ []) (map (sending sfd buffer) us)

module _ {Q : Type 0} (queue : Queue Q) (same : User → User → Bool) (cap : ℕ)
    (users : Q → List User) (fifo : Fifo queue same cap users) (pos : 1 ≤ cap) where
  -- A full queue loses its first user.
  after_push-full :
      (q : Q) (user : User) (us : List User)
      → users q ≡ us
      → length us ≡ cap
      → (q' : Q) × (after_push queue user (1, q) ≡ (true, q'))
        × (users q' ≡ drop 1 us ++ (user ∷ []))
  unfolding after_push after_pop
  after_push-full q user [] e full = absurd (omega (arith, full))
  after_push-full q user (v ∷ vs) e full =
      let (popped, left) = fifo.takes_first q v vs e in
      let (pushed, more) =
        fifo.has_room (queue.pop q).1 user (omega (arith, full, ap length left)) in
      (_, rw (popped, pushed) refl, more ∙ rw left refl)

  pushed_room : (user : User) (p : ℕ × Q) → p.0 ≡ 0 → after_push queue user p ≡ (true, p.1)
  unfolding after_push
  pushed_room user (ret, q) e = rw e refl

  pushed_full :
      (user : User) (p : ℕ × Q) → p.0 ≡ 1 → after_push queue user p ≡ after_push queue user (1, p.1)
  pushed_full user (ret, q) e = rw e refl

  pub add_user-admit :
      (q : Q) (user : User)
      → length (users q) ≤ cap
      → (q' : Q) × (add_user queue q user ≡ (true, q'))
        × (users q' ≡ admit same cap user (users q))
        × (length (users q') ≤ cap)
  unfolding add_user
  add_user-admit q user le = elim (Bool-cases (queue.includes q user)) [
    | inl e ↦
        let h : has same user (users q) ≡ true = sym (fifo.finds q user) ∙ e in
        (q, rw e refl, rw h refl, le)
    | inr e ↦
        let h : has same user (users q) ≡ false = sym (fifo.finds q user) ∙ e in
        elim (Bool-cases (ltb (length (users q)) cap)) [
          | inl room ↦
              let lt : length (users q) < cap = ground (arith, room) in
              let (code, more) = fifo.has_room q user lt in
              (
                (queue.push q user).1,
                rw e (pushed_room user (queue.push q user) code),
                rw (h, room) more,
                rw more (omega (arith, lt, length-append (users q) (user ∷ []))),
              )
          | inr room ↦
              let (code, same_users) = fifo.is_full q user (ground (arith, room)) in
              let (q', e', more) =
                after_push-full (queue.push q user).1 user (users q) same_users
                  (ground (arith, room, le)) in
              (
                q',
                rw e (pushed_full user (queue.push q user) code ∙ e'),
                rw (h, room) more,
                rw more (
                    omega (
                      arith,
                      pos,
                      le,
                      length-append (drop 1 (users q)) (user ∷ []),
                      length-drop 1 (users q),
                    )),
              )
        ]
  ]
