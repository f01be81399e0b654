-- ===== src/UdpEcho/Threads/Tests.antt =====
-- udpecho with one socket, stopped by a signal while its thread is in recvfrom(2).
use csockets.Base.{◌+◌, ◌*◌, ◌≤◌, ◌≡◌, refl, ◌⊎◌, arith}
use csockets.UdpEcho.Threads.{
  finished, State, creates, all_created, stops, all_stopped, goes, leaves, times_out, Own, own,
  signal, Reach, start, later,
}
use csockets.UdpEcho.Threads.Order.{closed, Quiet, Reach-closed_last}
use csockets.UdpEcho.Threads.Ending.{Runs, stop, more, Runs-finishes}

abbrev told : (s : State) × Reach 1 s
told = (
  _,
  later
      (later
        (later
          (later
            (later (later start (own (creates 0 refl (omega arith) (omega arith))))
              (own (goes 0 refl refl)))
            (own (all_created 1 refl (omega arith))))
          (signal refl))
        (own (stops 0 refl (omega arith))))
      (own (all_stopped 1 refl (omega arith))),
)

Reach-closed_last_example : (closed 1 told.0.main ≡ 0) ⊎ Quiet told.0
Reach-closed_last_example = Reach-closed_last (omega arith) told.1

-- The receive ends, and the thread returns.
abbrev returned : (t : State) × Runs 1 told.0 2 t
returned = (_, more (more stop (own (times_out 0 refl))) (own (leaves 0 refl refl)))

Runs-finishes_example :
    (2 ≤ 5 * 1 + 3) × ((returned.0.main ≡ finished) ⊎ ((u : State) × Own 1 returned.0 u))
Runs-finishes_example = Runs-finishes (omega arith) told.1 tt returned.1
