-- ===== src/Chat/Master/Safety.antt =====
-- The thread of udpchat/src/main.c from its start to its end.
use csockets.Base.{
  ℕ, ◌≤◌, ◌<◌, ◌≡◌, refl, ◌∙◌, Option, some, List, [], ◌∷◌, arith, length, take, All,
}
use csockets.Heap.{Run, ok, fault}
use csockets.Users.{Table, user_table_init}
use csockets.Users.Layout.{Cells, IsDistinct, layout, table_of}
use csockets.Users.Traverse.{user_table_free-layout}
use csockets.Chat.{System, Event, actuser_timeout}
use csockets.Chat.Callbacks.{World, Packet}
use csockets.Chat.Callbacks.Broadcast.{IsSized, Sends}
use csockets.Chat.Relay.{Relayed}
use csockets.Chat.Master.Schedule.{handled_rounds}
use csockets.Chat.Master.{Round, master_func, max_bind_count}
use csockets.Chat.Master.Loops.{IsFresh, RoundFits, total, master_loop-Settled}

-- A run of the thread that handled the messages `es`, of at most `n` that it met, is over.
pub record Ended (sys : System) (n : ℕ) (es : List (ℕ × Event)) (w : World)
    (r : Run (Option World) Table) : Type 0 where
  pub users : Cells
  pub packets : List Packet
  pub final : Option World
  pub relayed : Relayed sys actuser_timeout [] es users packets
  pub sends : Sends packets w final
  pub distinct : IsDistinct users
  pub bounded : length users ≤ n
  pub ends : r ≡ (elim users [ [] ↦ fault | _ ∷ _ ↦ ok (table_of 0 []) (layout []) final ])

-- Where malloc(3) gives NULL or an unused address, every message fits its buffer, the formatter's
-- buffer has its size and there is more fuel than messages, the thread runs through all rounds. It
-- handles the messages that poll(2) reports until an error or the flag ends it: each that has a
-- text and a sender brings the users up to date, at most one more for each message, those that are
-- dropped are told, and unless it counts as spam it is sent to every user. At the end every node is
-- given back and the table is empty, unless no user is left: then the thread follows a null pointer.
pub master_func-Ended :
    (sys : System) (fuel : ℕ) (sfd_arr : List ℕ) (rounds : List Round) (w : World)
    → IsFresh sys
    → total rounds < fuel
    → All RoundFits rounds
    → IsSized w
    → Ended sys
        (total rounds)
        (handled_rounds (take max_bind_count sfd_arr) rounds)
        w
        (master_func sys fuel sfd_arr rounds (layout []) (some w))
unfolding master_func user_table_init
master_func-Ended sys fuel sfd_arr rounds w fresh enough fits size =
    let s =
      master_loop-Settled sys fuel actuser_timeout fresh w [] (take max_bind_count sfd_arr) rounds
        tt (omega arith) fits size in
    record {
      users = s.users;
      packets = s.packets;
      final = s.final;
      relayed = s.relayed;
      sends = s.sends;
      distinct = s.distinct;
      bounded = omega (arith, s.bounded);
      ends = rw s.ends (
          user_table_free-layout fuel actuser_timeout s.final s.users s.distinct
            (omega (arith, s.bounded)));
    }

nobody : (xs : Cells) → length xs ≤ 0 → xs ≡ []
nobody [] le = refl
nobody (c ∷ xs) le = ground arith

-- Where malloc(3) gives NULL or an unused address, the formatter's buffer has its size, there is fuel
-- for a turn and no call of poll(2) finds a descriptor, the thread ends in the null pointer.
pub master_func_idle :
    (sys : System) (fuel : ℕ) (sfd_arr : List ℕ) (rounds : List Round) (w : World)
    → IsFresh sys
    → total rounds ≡ 0
    → 0 < fuel
    → All RoundFits rounds
    → IsSized w
    → master_func sys fuel sfd_arr rounds (layout []) (some w) ≡ fault
master_func_idle sys fuel sfd_arr rounds w fresh silent enough fits size =
    let e = master_func-Ended sys fuel sfd_arr rounds w fresh (omega arith) fits size in
    let gone = nobody e.users (omega (arith, e.bounded)) in e.ends ∙ rw gone refl
