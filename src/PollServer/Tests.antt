-- ===== src/PollServer/Tests.antt =====
-- The server of tcpPrintServer_poll at small inputs.
use csockets.Base.{
  ℕ, ◌+◌, ◌≡◌, refl, true, Option, none, some, List, [], ◌∷◌, ◌==◌, replicate, if◌then◌else◌,
}
use csockets.PollServer.{
  Pollfd, closes, writes, Server, timed_out, ready, Round, goes, turn, rounds, serve, serve_loop,
  clienthandle, drop_on_error, set_revents, has_flag, receive, check_listener, accept_client,
  place_client, free_spot, set_client, after, create_socket, socketloop, vacant,
}
use csockets.PollServer.Conservation.{held, closed, socketloop-held}
use csockets.PollServer.Clients.{about}
use csockets.PollServer.Clients.Service.{rounds-conversation}
use csockets.PollServer.Refinement.{holds, view, socketloop-all_rounds}

abbrev slot : Option ℕ → ℕ → Pollfd
slot fd revents = record { fd = fd; events = 1; revents = revents }

-- Client 4 sent "A", client 5 hung up, the third place is free; client 9 knocks.
abbrev crowd : Server
crowd = record {
  listener = slot (some 3) 0;
  clients = slot (some 4) 0 ∷ slot (some 5) 0 ∷ slot none 0 ∷ [];
}

abbrev busy : Round
busy = record {
  polled = ready 1 (1 ∷ 1 ∷ 0 ∷ []);
  input = λ n. if n == 1 then some (65 ∷ []) else none;
  accepted = some 9;
}

abbrev crowd_then : Server
crowd_then = record {
  listener = slot (some 3) 1;
  clients = slot (some 4) 1 ∷ record { fd = some 9; events = 1; revents = 8 } ∷ slot none 0 ∷ [];
}

busy-turn :
    turn busy busy.polled crowd
    ≡ (goes crowd_then, writes (some 4) (65 ∷ []) ∷ closes (some 5) ∷ [])
unfolding turn receive serve_loop serve clienthandle drop_on_error set_revents has_flag
    check_listener accept_client place_client free_spot set_client
busy-turn = refl

-- A client is accepted by a server that has just started.
abbrev first_round : Round
first_round = record { polled = ready 1 []; input = λ _. none; accepted = some 9 }

abbrev started : Server
started = record { listener = slot (some 3) 1; clients = slot (some 9) 0 ∷ vacant 18 }

started_loop : (socketloop (some 3) true true (first_round ∷ [])).0 ≡ goes started
unfolding socketloop create_socket rounds after vacant turn receive serve_loop serve clienthandle
    drop_on_error set_revents has_flag check_listener accept_client place_client free_spot
    set_client
started_loop = refl

socketloop-held_example :
    held 9 started.clients + closed 9 (socketloop (some 3) true true (first_round ∷ [])).1 ≡ 1
socketloop-held_example = socketloop-held 9 3 (first_round ∷ []) started (tt, tt) started_loop

-- A client knocks and sends "A"; then nothing comes in time.
abbrev day : List Round
day =
    first_round
    ∷ record {
      polled = ready 0 (1 ∷ []);
      input = λ n. if n == 1 then some (65 ∷ []) else none;
      accepted = none;
    }
    ∷ record { polled = timed_out; input = λ _. none; accepted = none }
    ∷ []

socketloop-all_rounds_example :
    view (socketloop (some 3) true true day)
    ≡ (holds (some 9 ∷ replicate 18 none), writes (some 9) (65 ∷ []) ∷ closes (some 9) ∷ [])
unfolding has_flag
socketloop-all_rounds_example = socketloop-all_rounds 3 day

-- Client 4 sends "A", then nothing comes in time, then it hangs up.
abbrev visit_of_4 : List Round
visit_of_4 =
    busy
    ∷ record { polled = timed_out; input = λ _. none; accepted = none }
    ∷ record { polled = ready 0 (1 ∷ []); input = λ _. none; accepted = none }
    ∷ []

rounds-conversation_example :
    about 4 (rounds visit_of_4 crowd).1
    ≡ writes (some 4) (65 ∷ []) ∷ closes (some 4) ∷ closes (some 4) ∷ []
unfolding has_flag
rounds-conversation_example =
    rounds-conversation 4 0 visit_of_4 crowd (refl, (refl, (refl, tt))) (refl, (refl, (refl, tt)))
