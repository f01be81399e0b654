-- ===== src/Chat/Tests.antt =====
-- The thread and the start of udpchat at small inputs.
use csockets.Base.{
  ℕ, ◌+◌, ◌≡◌, refl, inl, inr, true, false, none, some, List, [], ◌∷◌, arith, ◌==◌, Option-cases,
}
use csockets.Heap.{null, Info}
use csockets.Formatter.{initial_buffers}
use csockets.Users.Roster.{update_cells}
use csockets.Users.Layout.{Cells, layout, table_of}
use csockets.Chat.{System, Event, datagram, event, family_of_len, sender_of, env_at, msg_handle}
use csockets.Chat.Callbacks.{World}
use csockets.Chat.Callbacks.Broadcast.{IsSized}
use csockets.Chat.Handle.{Handled, msg_handle-Handled}
use csockets.Chat.Master.{pollin, Round, round, ready, interrupted, timed_out, master_func}
use csockets.Chat.Master.Schedule.{handled_rounds}
use csockets.Chat.Master.Loops.{IsFresh}
use csockets.Chat.Master.Safety.{Ended, master_func-Ended}
use csockets.Chat.Start.{Answers, returned, Host, parse_args, bind_loop, main}
use csockets.Chat.Start.Sockets.{bind_loop-usable}
use csockets.Chat.Start.Ending.{WindsUp, main-WindsUp}
use csockets.Chat.Start.Arguments.{parse_args-within}
use csockets.Net.Addrinfo.{Addrinfo, addresses}
use csockets.Net.{Storage}

abbrev host : ℕ → Storage
host n = 2 ∷ 0 ∷ 15 ∷ 160 ∷ 10 ∷ 0 ∷ 0 ∷ n ∷ []

-- A client at 10.0.0.n, port 4000, that sent its latest message at time `t`.
abbrev client : ℕ → ℕ → Info
client n t = record {
  addr = host n;
  addr_len = 16;
  addr_family = 2;
  recv_fd = 3;
  id = n + 10;
  last_msg = t;
  last_msg_xs = t;
}

abbrev hi : List ℕ
hi = 104 ∷ 105 ∷ 10 ∷ []

abbrev world : World
world = record { buffers = initial_buffers; sent = [] }

world-IsSized : IsSized world
unfolding initial_buffers
world-IsSized = refl

-- One node can be had, at address 7; every datagram is accepted.
abbrev sys : System
sys = record { malloc = λ h. elim (h 7) [ none ↦ 7 | some u ↦ null ]; accepts = λ _. true }

abbrev two : Cells
two = (5, client 1 10) ∷ (4, client 2 100) ∷ []

-- Client 9 writes; client 1 timed out long ago.
msg_handle-Handled_example :
    Handled
      (sender_of 3 150 (host 9) 16 2)
      hi
      70
      (update_cells (env_at sys (λ _. 150) (layout two)) 70 (sender_of 3 150 (host 9) 16 2) 0 two)
      world
      (msg_handle sys 4 3
        (event (datagram hi (host 9) 16) 150 (λ _. 150))
        (table_of 70 two)
        (layout two)
        (some world))
unfolding family_of_len
msg_handle-Handled_example =
    msg_handle-Handled sys 4 70 world two 3 hi (host 9) 16 2 150 (λ _. 150) refl (omega arith)
      (omega arith) (ground arith) refl (omega arith) world-IsSized

sys-IsFresh : IsFresh sys
sys-IsFresh h = elim (Option-cases (h 7)) [
  | inl e ↦ inr (rw (e, e) refl)
  | inr (u, e) ↦ inl (rw e refl)
]

abbrev greeting : Event
greeting = event (datagram hi (host 9) 16) 150 (λ _. 150)

-- A signal, a message, and no more for a while.
abbrev turns : List Round
turns =
    round true interrupted
    ∷ round true (ready ((pollin, greeting) ∷ []))
    ∷ round true timed_out
    ∷ round false timed_out
    ∷ []

handled_turns : handled_rounds (3 ∷ []) turns ≡ (3, greeting) ∷ []
unfolding family_of_len
handled_turns = refl

master_func-Ended_example :
    Ended sys 1
      (handled_rounds (3 ∷ []) turns)
      world
      (master_func sys 4 (3 ∷ []) turns (layout []) (some world))
master_func-Ended_example =
    master_func-Ended sys 4 (3 ∷ []) turns world sys-IsFresh (omega arith) (ground arith)
      world-IsSized

abbrev info : ℕ → Addrinfo
info n = record {
  ai_family = 2;
  ai_socktype = 2;
  ai_protocol = 17;
  ai_addr = host n;
  ai_addrlen = 16;
}

-- Of two addresses the second cannot be bound.
abbrev answers : ℕ → Answers
answers n = record { sock = some (n + 3); v6only = true; bound = n == 0 }

abbrev machine : Host
machine = record {
  signals = true;
  getaddrinfo = λ port node. addresses (info 0 ∷ info 1 ∷ []);
  answers = answers;
  thread = returned;
}

bind_loop-usable_example : (bind_loop answers 0 (info 0 ∷ info 1 ∷ []) []).0 ≡ 3 ∷ []
bind_loop-usable_example = bind_loop-usable answers 0 (info 0 ∷ info 1 ∷ []) [] (omega arith)

main-WindsUp_example : WindsUp 4 returned (main machine (hi ∷ hi ∷ []))
main-WindsUp_example = main-WindsUp 4 machine (hi ∷ hi ∷ [])

parse_args-within_example : parse_args (hi ∷ hi ∷ host 1 ∷ []) ≡ some (hi, host 1 ∷ [])
parse_args-within_example = parse_args-within hi hi (host 1 ∷ [])
