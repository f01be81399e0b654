-- ===== src/OldChat/Threads/Tests.antt =====
-- Two threads of the earlier version of udpchat.
use csockets.Base.{ℕ, ◌+◌, ◌≤◌, ◌≡◌, refl, List, [], ◌∷◌, length, arith}
use csockets.OldChat.{User, add_user, after_push, after_pop}
use csockets.OldChat.Tests.{same, list_queue, list_queue-Fifo, user}
use csockets.OldChat.Threads.{
  System, init, goes, receives, locks, adds, casts, unlocks, Reach, start, later,
}
use csockets.OldChat.Threads.Order.{Reach-serve_all}
use csockets.OldChat.Threads.Owed.{serve_all, all_added}

abbrev socket : ℕ → ℕ
socket i = i + 4

-- Both threads have a datagram, and thread 1 has the mutex; for a queue of any size.
abbrev contended : (cap : ℕ) → (s : System (List User)) × Reach (list_queue cap) socket (init []) s
contended cap = (
  _,
  later
      (later
        (later (later (later start (goes 0 refl)) (goes 1 refl))
          (receives 0 (97 ∷ []) (2 ∷ 5 ∷ []) 2 refl))
        (receives 1 (98 ∷ []) (2 ∷ 6 ∷ []) 2 refl))
      (locks 1 (98 ∷ []) (user 6) refl refl),
)

-- Thread 1 is done.
abbrev served : (s : System (List User)) × Reach (list_queue 2) socket (init []) s
unfolding add_user after_push after_pop
served = (
  _,
  later
      (later (later (contended 2).1 (adds 1 (98 ∷ []) (user 6) (user 6 ∷ []) refl refl))
        (casts 1 (98 ∷ []) refl))
      (unlocks 1 refl),
)

Reach-serve_all_example :
    let end = serve_all same 2 (all_added (list_queue 2) socket served.1) in
    (served.0.queue ≡ end.0) × (served.0.sent ≡ end.1) × (length served.0.queue ≤ 2)
unfolding add_user after_push after_pop
Reach-serve_all_example =
    Reach-serve_all (list_queue 2) socket same 2 (λ q. q) (list_queue-Fifo 2) (omega arith) refl
      served.1 refl
