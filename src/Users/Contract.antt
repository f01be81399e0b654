-- ===== src/Users/Contract.antt =====
-- `user_table_update` of udpchat/src/users.c as a whole: it runs to the end within its rounds and
-- has the effect that is promised of the list of users.
use csockets.Base.{◌⊎◌, ◌≤◌, ◌+◌, ℕ, suc, ◌<◌, ◌≡◌, ◌≢◌, false, [], ◌∷◌, arith, length}
use csockets.Heap.{Ptr, null, Info, user, ok}
use csockets.Users.{Env, user_table_update}
use csockets.Users.Layout.{Cells, has, IsDistinct, layout, table_of}
use csockets.Users.Roster.{notify, update_cells}
use csockets.Users.Update.{update_loop-Done}

-- For distinct nodes, an address from malloc(3) that none of them has, and more fuel than nodes,
-- the memory and table of a list of users go over to those of the updated list, the return code is
-- the list's, and the callback is called for the users that timed out, in order.
pub user_table_update-update_cells :
    {W : Type 0} (env : Env W) (fuel timeout : ℕ) (u : Info) (w : W) (xs : Cells)
    → IsDistinct xs
    → has env.malloc xs ≡ false
    → length xs < fuel
    → let o = update_cells env timeout u 0 xs in
      user_table_update fuel env (table_of timeout xs) (user u null null) (layout xs) w
      ≡ ok (o.code, table_of timeout o.users) (layout o.users) (notify env.timeout_func o.gone w)
unfolding user_table_update
user_table_update-update_cells env fuel timeout u w xs d fresh enough =
    update_loop-Done env timeout u fuel 0 w [] xs d fresh enough

module _ {W : Type 0} (env : Env W) (timeout : ℕ) (u : Info) where
  -- An address that is neither in the list nor malloc's is not in the updated list.
  has-update_cells :
      (b : Ptr) (r : ℕ) (xs : Cells)
      → b ≢ env.malloc
      → has b xs ≡ false
      → has b (update_cells env timeout u r xs).users ≡ false
  unfolding update_cells
  has-update_cells b r [] ne h = ground arith
  has-update_cells b r ((a, i) ∷ []) ne h = ground arith
  has-update_cells b r ((a, i) ∷ (c, j) ∷ rest) ne h =
      ground (arith, has-update_cells b (suc r) ((c, j) ∷ rest) ne)

  -- An update keeps the nodes distinct.
  pub update_cells-IsDistinct :
      (r : ℕ) (xs : Cells)
      → IsDistinct xs
      → has env.malloc xs ≡ false
      → IsDistinct (update_cells env timeout u r xs).users
  unfolding update_cells
  update_cells-IsDistinct r [] d fresh = ground arith
  update_cells-IsDistinct r ((a, i) ∷ []) d fresh = ground arith
  update_cells-IsDistinct r ((a, i) ∷ (c, j) ∷ rest) d fresh = ground (
    arith,
    has-update_cells a (suc r) ((c, j) ∷ rest),
    update_cells-IsDistinct (suc r) ((c, j) ∷ rest) d.2,
  )

  -- The only codes are 0 and 1, and at most one user comes in.
  pub update_cells-code :
      (r : ℕ) (xs : Cells)
      → let o = update_cells env timeout u r xs in
        ((o.code ≡ 0) ⊎ (o.code ≡ 1)) × (length o.users ≤ length xs + 1)
  unfolding update_cells
  update_cells-code r [] = ground arith
  update_cells-code r ((a, i) ∷ []) = ground arith
  update_cells-code r ((a, i) ∷ (c, j) ∷ rest) =
      ground (arith, update_cells-code (suc r) ((c, j) ∷ rest))
