-- ===== src/Users/Tests.antt =====
-- The table of udpchat/src/users.c at small inputs, and its theorems at them.
use csockets.Base.{ℕ, ◌+◌, ◌≡◌, refl, List, [], ◌∷◌, ◌++◌, arith}
use csockets.Net.{sockaddr_cmp, memcmp}
use csockets.Heap.{
  null, Info, user, write, Run, ok, fault, out_of_fuel, load, set_next, set_prev, clear, free,
}
use csockets.Users.{
  Table, Env, is_same, is_expired, is_spam, unlink, remove, sweep, update_loop, user_table_update,
  user_table_every, user_table_free,
}
use csockets.Users.Layout.{Cells, IsDistinct, layout, table_of}
use csockets.Users.Roster.{notify, update_cells}
use csockets.Users.Members.{kept, dropped, renewed}
use csockets.Users.Traverse.{user_table_every-notify, user_table_free-layout}
use csockets.Users.Id.{user_calculate_id, pair_sums, to_id, user_calculate_id-pair_sums}
use csockets.Users.Behaviour.{
  user_table_update_known, user_table_update-Unknown, Updated, user_table_update-Updated,
}
use csockets.Users.Contract.{user_table_update-update_cells}

-- A client at 10.0.0.n, port 4000, that sent its latest message at time `t`.
abbrev client : ℕ → ℕ → Info
client n t = record {
  addr = 2 ∷ 0 ∷ 15 ∷ 160 ∷ 10 ∷ 0 ∷ 0 ∷ n ∷ [];
  addr_len = 16;
  addr_family = 2;
  recv_fd = 3;
  id = n + 10;
  last_msg = t;
  last_msg_xs = t;
}

-- Time 150 at each reading; the log of the callback is a list.
abbrev env : Env (List Info)
env = record { malloc = 7; time = λ _. 150; timeout_func = λ i log. log ++ i ∷ [] }

-- Client 1 timed out, client 2 did not, client 3 stands last.
abbrev three : Cells
three = (5, client 1 10) ∷ (4, client 2 100) ∷ (6, client 3 10) ∷ []

three-IsDistinct : IsDistinct three
three-IsDistinct = ground arith

-- The whole of the updates, computed.
abbrev updated : ℕ → Info → Run (List Info) (ℕ × Table)
updated fuel u = user_table_update fuel env (table_of 70 three) (user u null null) (layout three) []

-- A new client: the first is dropped, the last stays, and the new one goes behind.
abbrev after_new : Cells
after_new = (4, client 2 100) ∷ (6, client 3 10) ∷ (7, client 9 150) ∷ []

new_users : (update_cells env 70 (client 9 150) 0 three).users ≡ after_new
unfolding update_cells is_same is_expired is_spam sockaddr_cmp memcmp
new_users = refl

new_gone : (update_cells env 70 (client 9 150) 0 three).gone ≡ client 1 10 ∷ []
unfolding update_cells is_same is_expired is_spam sockaddr_cmp memcmp
new_gone = refl

-- A message of the last client moves its spam window and not its time.
last_users :
    (update_cells env 70 (client 3 150) 0 three).users
    ≡ (4, client 2 100) ∷ (6, record (client 3 150) { last_msg = 10 }) ∷ []
unfolding update_cells is_same is_expired is_spam sockaddr_cmp memcmp
last_users = refl

-- Without enough rounds the loop is cut off.
short_of_fuel : updated 1 (client 9 150) ≡ out_of_fuel
unfolding user_table_update update_loop is_same is_expired sweep remove unlink load set_prev
    set_next clear free write sockaddr_cmp memcmp
short_of_fuel = refl

user_table_update-update_cells_example :
    user_table_update 4 env (table_of 70 three) (user (client 9 150) null null) (layout three) []
    ≡ ok (0, table_of 70 after_new) (layout after_new) (client 1 10 ∷ [])
unfolding update_cells is_same is_expired is_spam sockaddr_cmp notify memcmp
user_table_update-update_cells_example =
    user_table_update-update_cells env 4 70 (client 9 150) [] three three-IsDistinct refl
      (omega arith)

abbrev after_last : Cells
after_last = (4, client 2 100) ∷ (6, record (client 3 150) { last_msg = 10 }) ∷ []

user_table_update_known_example :
    user_table_update 4 env (table_of 70 three) (user (client 3 150) null null) (layout three) []
    ≡ ok (0, table_of 70 after_last) (layout after_last) (client 1 10 ∷ [])
unfolding kept dropped renewed is_same is_expired is_spam sockaddr_cmp notify memcmp
user_table_update_known_example =
    user_table_update_known env 4 70 (client 3 150) [] ((5, client 1 10) ∷ (4, client 2 100) ∷ []) 6
      (client 3 10) [] (refl, (refl, tt)) refl three-IsDistinct refl (omega arith)

user_table_update-Unknown_example :
    user_table_update 4 env (table_of 70 three) (user (client 9 150) null null) (layout three) []
    ≡ ok (0, table_of 70 after_new) (layout after_new) (client 1 10 ∷ [])
unfolding kept dropped is_same is_expired sockaddr_cmp notify memcmp
user_table_update-Unknown_example =
    user_table_update-Unknown env 4 70 (client 9 150) [] ((5, client 1 10) ∷ (4, client 2 100) ∷ [])
      6 (client 3 10) (refl, (refl, tt)) refl three-IsDistinct refl (omega arith)

user_table_update-Updated_example :
    Updated env 4 70 (client 9 150) [] three (
      user_table_update 4 env (table_of 70 three) (user (client 9 150) null null) (layout three) [])
unfolding is_same sockaddr_cmp memcmp
user_table_update-Updated_example =
    user_table_update-Updated env 4 70 (client 9 150) [] three three-IsDistinct
      ((refl, (refl, tt)), ((refl, tt), (tt, tt))) refl (omega arith)

user_table_every-notify_example :
    user_table_every 4 env.timeout_func (table_of 70 three) (layout three) []
    ≡ ok 0 (layout three) (client 1 10 ∷ client 2 100 ∷ client 3 10 ∷ [])
unfolding notify
user_table_every-notify_example =
    user_table_every-notify env.timeout_func 4 70 [] three three-IsDistinct (omega arith)

user_table_free-layout_example :
    user_table_free 4 (table_of 70 three) (layout three) (tt {0})
    ≡ ok (table_of 0 []) (layout []) tt
user_table_free-layout_example = user_table_free-layout 4 70 tt three three-IsDistinct (omega arith)

-- Shutting down before anyone has sent a message.
free_nobody : user_table_free 4 (table_of 70 []) (layout []) (tt {0}) ≡ fault
free_nobody = user_table_free-layout 4 70 tt [] tt (omega arith)

user_calculate_id-pair_sums_example : user_calculate_id (client 9 0) ≡ 19
unfolding pair_sums to_id
user_calculate_id-pair_sums_example = user_calculate_id-pair_sums (client 9 0) (omega arith)
