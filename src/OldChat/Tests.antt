-- ===== src/OldChat/Tests.antt =====
-- The earlier version of udpchat at small inputs.
use csockets.Base.{
  ℕ, ◌+◌, ◌≤◌, ◌≡◌, refl, Bool, true, false, some, List, [], ◌∷◌, ◌++◌, ltb, ◌==◌, if◌then◌else◌,
  length, arith,
}
use csockets.Net.Addrinfo.{Addrinfo, addresses}
use csockets.Chat.Start.{parse_args}
use csockets.Chat.Start.Sockets.{Balanced}
use csockets.UdpEcho.Sockets.{Threads}
use csockets.OldChat.{
  max_active_user_count, User, Queue, Turn, packet, again, World, loops, sending, rw_loop_func,
  active_users, Host, main,
}
use csockets.OldChat.Admission.{visit, has, Fifo, relay, Works}
use csockets.OldChat.Relay.{rw_loop_func-relay}
use csockets.OldChat.Resources.{acquired, released, calls_of, refuses, main-released}

abbrev pub same_bytes : List ℕ → List ℕ → Bool
same_bytes [] [] = true
same_bytes (c ∷ cs) (d ∷ ds) = if c == d then same_bytes cs ds else false
same_bytes _ _ = false

abbrev pub same : User → User → Bool
same u v = same_bytes u.addr v.addr

abbrev pub list_pop : List User → ℕ × List User
list_pop [] = (1, [])
list_pop (u ∷ us) = (0, us)

abbrev pub list_queue : ℕ → Queue (List User)
list_queue cap = record {
  includes = λ q u. has same u q;
  push = λ q u. if ltb (length q) cap then (0, q ++ (u ∷ [])) else (1, q);
  pop = list_pop;
  every = visit;
}

pub list_queue-Fifo : (cap : ℕ) → Fifo (list_queue cap) same cap (λ q. q)
list_queue-Fifo cap = record {
  finds = λ q u. refl;
  has_room = λ q u lt. let t : ltb (length q) cap ≡ true = ground arith in rw t (refl, refl);
  is_full = λ q u le. let t : ltb (length q) cap ≡ false = ground arith in rw t (refl, refl);
  takes_first = λ q v vs e. rw e (refl, refl);
  visits = λ f q sent. refl;
}

abbrev says : ℕ → ℕ → Turn
says c from = record {
  run = true;
  receipt = packet (c ∷ []) (2 ∷ from ∷ []) 2;
  lock_fine = true;
  unlock_fine = true;
}

abbrev pub user : ℕ → User
user from = record { addr = 2 ∷ from ∷ []; addr_len = 2 }

abbrev waits : Turn
waits = record { run = true; receipt = again; lock_fine = true; unlock_fine = true }

says-Works : (c from : ℕ) → Works (says c from)
says-Works c from = record { runs = refl; receives = λ e. cc e; locks = refl; unlocks = refl }

waits-Works : Works waits
waits-Works = record { runs = refl; receives = λ e. cc e; locks = refl; unlocks = refl }

-- Three users, of which the first has no place any more.
abbrev talk : List Turn
talk = says 97 5 ∷ waits ∷ says 98 6 ∷ says 99 7 ∷ []

abbrev idle : World (List User)
idle = record { queue = []; locked = false; sent = [] }

rw_loop_func-relay_example :
    let end = relay same max_active_user_count 4 talk [] in
    (w' : World (List User)) × (rw_loop_func (list_queue max_active_user_count) 4 talk idle
      ≡ (loops, w'))
    × (w'.queue ≡ end.0)
    × (w'.sent ≡ end.1)
    × (w'.locked ≡ false)
    × (length w'.queue ≤ max_active_user_count)
rw_loop_func-relay_example =
    rw_loop_func-relay (list_queue max_active_user_count) same max_active_user_count (λ q. q)
      (list_queue-Fifo max_active_user_count) (omega arith) 4 talk idle
      (says-Works 97 5, (waits-Works, (says-Works 98 6, (says-Works 99 7, tt)))) refl (omega arith)

three_users : relay same max_active_user_count 4 talk [] ≡ (
  user 6 ∷ user 7 ∷ [],
  sending 4 (97 ∷ []) (user 5)
      ∷ sending 4 (98 ∷ []) (user 5)
      ∷ sending 4 (98 ∷ []) (user 6)
      ∷ sending 4 (99 ∷ []) (user 6)
      ∷ sending 4 (99 ∷ []) (user 7)
      ∷ [],
)
three_users = refl

abbrev info : Addrinfo
info = record { ai_family = 2; ai_socktype = 2; ai_protocol = 17; ai_addr = []; ai_addrlen = 16 }

abbrev machine : Host
machine = record {
  log_ready = true;
  lock_ready = true;
  signals_ready = true;
  queue_ready = true;
  getaddrinfo = λ port node. addresses (info ∷ []);
  answers = λ n. record { sock = some (n + 3); v6only = true; bound = true; timeout_set = true };
  threads = λ n. true;
}

-- No port is given.
main-released_example :
    let es = (main machine ([] ∷ [])).1 in
    (acquired active_users es
      ≡ released active_users es + (if refuses machine (parse_args ([] ∷ [])) then 1 else 0))
    × Threads 0 (calls_of es) 0
    × ((fd : ℕ) → Balanced fd 0 (calls_of es) 0)
main-released_example = main-released machine ([] ∷ []) active_users
