-- ===== src/Chat/Shutdown/Tests.antt =====
-- udpchat with one socket, stopped by a signal in its first poll(2).
use csockets.Base.{◌+◌, ◌*◌, ◌≤◌, ◌≡◌, refl, ◌⊎◌, true, false, arith}
use csockets.Chat.Shutdown.{
  shutting, polling, ended, killed, State, closed, Own, runs, clears, shuts, wakes_up, passes,
  checked, leaves, faults, own, signal, Reach, start, later,
}
use csockets.Chat.Shutdown.Order.{Reach-closed}
use csockets.Chat.Shutdown.Ending.{Runs, stop, more, HasEnded, Runs-ends}

abbrev cleared : State
cleared = record { main = shutting 0; master = polling; run = false; occupied = false; shut = 0 }

cleared-Reach : Reach true 1 cleared
cleared-Reach = later (later (later start (own (runs refl refl))) (signal refl)) (own (clears refl))

Reach-closed_example : (closed 1 cleared.main ≡ 0) ⊎ (cleared.master ≡ ended)
Reach-closed_example = Reach-closed cleared-Reach

-- The socket is shut down, and poll(2) ends.
abbrev woken : (t : State) × Runs true 1 cleared 2 t
woken = (
  _,
  more (more stop (own (shuts 0 refl (omega arith)))) (own (wakes_up refl refl (omega arith))),
)

Runs-ends_example :
    (2 ≤ 4 * 1 + 8)
    × (HasEnded woken.0 ⊎ ((u : State) × Own true 1 woken.0 u))
    × (cleared.occupied ≡ true → ¬ (woken.0.main ≡ killed))
Runs-ends_example = Runs-ends refl cleared-Reach refl (omega arith) woken.1

-- No message ever came, so the next steps of the master thread end in an access to NULL.
idle_killed : (t : State) × Runs true 1 cleared 6 t × (t.main ≡ killed)
idle_killed =
    let (t, rs) = woken in
    (
      _,
      more
          (more
            (more (more rs (own (passes 0 refl (omega arith))))
              (own (checked 1 refl (omega arith))))
            (own (leaves refl refl)))
          (own (faults refl refl)),
      refl,
    )
