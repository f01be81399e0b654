-- ===== src/Chat/Master.antt =====
-- `master_func` of udpchat/src/main.c: the poll loop of the thread.
pub mod Loops
pub mod Safety
pub mod Schedule
use csockets.Base.{ℕ, ◌≡◌, Bool, true, false, Option, List, [], ◌∷◌, ◌==◌, if◌then◌else◌, take}
use csockets.Heap.{Cmd, pure, ◌>>=◌}
use csockets.Users.{Table, user_table_init, user_table_free}
use csockets.Chat.{System, Event, actuser_timeout, msg_handle}
use csockets.Chat.Callbacks.{World}

abbrev pub max_bind_count : ℕ
max_bind_count = 10

-- The value of `revents`, as far as the switch tells values apart: a combination of flags, and no
-- flag at all, fall under `unlisted`.
pub data Revents : Type 0 where
  pollin pollpri pollerr pollhup unlisted : Revents

-- The result of poll(2): a signal, another error, no descriptor, or a descriptor for each entry of
-- the poll array with the message that waits there.
pub data Polled : Type 0 where
  interrupted poll_failed timed_out : Polled
  ready : List (Revents × Event) → Polled

-- A round of the loop: what it reads from the flag of the main thread, and the result of poll(2).
pub data Round : Type 0 where
  round : Bool → Polled → Round

module _ (sys : System) (fuel : ℕ) where
  -- The `for` loop over the poll array. The first result says whether it leaves the thread's loop.
  pub check_fds : List ℕ → List (Revents × Event) → Table → Cmd (Option World) (Bool × Table)
  check_fds fds [] table = pure (false, table)
  check_fds [] (e ∷ es) table = pure (false, table)
  check_fds (sfd ∷ fds) ((revents, e) ∷ es) table =
      let handle = do
        (ret, table) ← msg_handle sys fuel sfd e table
        if ret == 0 then check_fds fds es table else pure (true, table)
      in elim revents [
        | pollin ↦ handle
        | pollpri ↦ handle
        | pollerr ↦ pure (true, table)
        | pollhup ↦ pure (true, table)
        | unlisted ↦ check_fds fds es table
      ]

  -- `while (*args->run == true)`, as long as rounds are given.
  pub master_loop : List ℕ → List Round → Table → Cmd (Option World) (Unit {0} × Table)
  master_loop fds [] table = pure (tt, table)
  master_loop fds (round run polled ∷ rs) table =
      let rest = master_loop fds rs in
      if run
      then (elim polled [
        | interrupted ↦ rest table
        | poll_failed ↦ pure (tt, table)
        | timed_out ↦ rest table
        | ready es ↦ do
          (stop, table) ← check_fds fds es table
          if stop then pure (tt, table) else rest table
      ])
      else pure (tt, table)

  -- master_func
  pub master_func : List ℕ → List Round → Cmd (Option World) Table
  master_func sfd_arr rounds =
      let (ret, active_users) = user_table_init actuser_timeout in
      let run = do
        (_, active_users) ← master_loop (take max_bind_count sfd_arr) rounds active_users
        user_table_free fuel active_users
      in if ret == 0 then run else pure active_users
