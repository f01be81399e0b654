-- ===== src/UdpEcho/Tests.antt =====
-- udpecho at small inputs.
use csockets.Base.{ℕ, ◌+◌, ◌≡◌, true, some, List, [], ◌∷◌, ltb, arith}
use csockets.Net.Addrinfo.{Addrinfo, addresses}
use csockets.Chat.Start.Sockets.{Balanced}
use csockets.UdpEcho.{Host, main}
use csockets.UdpEcho.Loop.{packet, again, broken, Turn, turn, returns, rw_loop_func}
use csockets.UdpEcho.Loop.Echo.{rw_loop_func-echoes}
use csockets.UdpEcho.Sockets.{Threads}
use csockets.UdpEcho.Resources.{main-Tidy}

-- A long address, a pause, a shorter datagram from a shorter address, an error, and one too late.
abbrev busy_day : List Turn
busy_day =
    turn true (packet (65 ∷ 66 ∷ []) (10 ∷ 0 ∷ 1 ∷ [])) true
    ∷ turn true again true
    ∷ turn true (packet (67 ∷ []) (2 ∷ 0 ∷ [])) true
    ∷ turn true broken true
    ∷ turn true (packet (68 ∷ []) (2 ∷ 0 ∷ [])) true
    ∷ []

rw_loop_func-echoes_example :
    rw_loop_func busy_day
    ≡ (returns 1, ((65 ∷ 66 ∷ []), (10 ∷ 0 ∷ 1 ∷ [])) ∷ ((67 ∷ []), (2 ∷ 0 ∷ [])) ∷ [])
rw_loop_func-echoes_example =
    rw_loop_func-echoes busy_day (omega arith, (tt, (omega arith, (tt, (omega arith, tt)))))

abbrev info : Addrinfo
info = record { ai_family = 2; ai_socktype = 2; ai_protocol = 17; ai_addr = []; ai_addrlen = 16 }

-- Two sockets, of which the second gets no thread.
abbrev machine : Host
machine = record {
  ready = true;
  getaddrinfo = λ port node. addresses (info ∷ info ∷ []);
  answers = λ n. record { sock = some (n + 3); bound = true; timeout_set = true };
  threads = λ n. ltb n 1;
}

main-Tidy_example :
    Threads 0 (main machine ([] ∷ (56 ∷ []) ∷ [])).1 0
    × ((fd : ℕ) → Balanced fd 0 (main machine ([] ∷ (56 ∷ []) ∷ [])).1 0)
main-Tidy_example = main-Tidy machine ([] ∷ (56 ∷ []) ∷ [])
