-- ===== src/Users/Behaviour.antt =====
-- What `user_table_update` of udpchat/src/users.c does to memory, table and callback, for senders that
-- are in the table and for those that are not, and what holds of the table afterwards.
use csockets.Base.{
  ℕ, ◌+◌, ◌≤◌, ◌<◌, ◌≡◌, inl, inr, arith, true, false, [], ◌∷◌, ◌++◌, ◌==◌, if◌then◌else◌, length,
}
use csockets.Heap.{Ptr, null, Info, user, Run, ok}
use csockets.Users.{Table, Env, is_same, is_spam, user_table_update}
use csockets.Users.Layout.{Cells, has, IsDistinct, layout, table_of}
use csockets.Users.Roster.{notify, extend, update_cells}
use csockets.Users.Members.{
  Unknown, kept, dropped, renewed, update_cells_known, update_cells-Unknown, IsUnique,
  update_cells-IsUnique, Listed, update_cells-Listed,
}
use csockets.Users.Contract.{
  user_table_update-update_cells, update_cells-IsDistinct, update_cells-code,
}

module _ {W : Type 0} (env : Env W) (fuel timeout : ℕ) (u : Info) (w : W) where
  -- The sender is in the table, at a place with no like before it; the nodes are distinct, malloc(3)
  -- would give an address that none of them has, and there is fuel for each: the sender keeps its
  -- place and is renewed unless its message is spam, for which the code is 1, those behind it stay,
  -- and of those before it the timed-out are dropped and told.
  pub user_table_update_known :
      (front : Cells) (a : Ptr) (i : Info) (rest : Cells)
      → let xs = front ++ (a, i) ∷ rest in
        Unknown u front
        → is_same i u ≡ true
        → IsDistinct xs
        → has env.malloc xs ≡ false
        → length xs < fuel
        → let ys = kept env.time timeout 0 front ++ (a, renewed i u rest) ∷ rest in
          user_table_update fuel env (table_of timeout xs) (user u null null) (layout xs) w
          ≡ ok
              (if is_spam i u then 1 else 0, table_of timeout ys)
              (layout ys)
              (notify env.timeout_func (dropped env.time timeout 0 front) w)
  user_table_update_known front a i rest before same d fresh enough =
      rw (update_cells_known env timeout u 0 front a i rest before same) at (
        user_table_update-update_cells env fuel timeout u w (front ++ (a, i) ∷ rest) d fresh enough)

  -- The sender is not in a table that has a user; the nodes are distinct, malloc(3) gives NULL or an
  -- address that none of them has, and there is fuel for each: the sender is put behind the others,
  -- or the code is 1 where malloc(3) gives NULL, and of the others all but the last are dropped and
  -- told if they timed out; the last one stays in any case.
  pub user_table_update-Unknown :
      (front : Cells) (a : Ptr) (i : Info)
      → let xs = front ++ (a, i) ∷ [] in
        Unknown u front
        → is_same i u ≡ false
        → IsDistinct xs
        → has env.malloc xs ≡ false
        → length xs < fuel
        → let ys = extend env.malloc (kept env.time timeout 0 front ++ (a, i) ∷ []) u in
          user_table_update fuel env (table_of timeout xs) (user u null null) (layout xs) w
          ≡ ok
              (if env.malloc == null then 1 else 0, table_of timeout ys)
              (layout ys)
              (notify env.timeout_func (dropped env.time timeout 0 front) w)
  user_table_update-Unknown front a i before other d fresh enough =
      rw (update_cells-Unknown env timeout u 0 front a i before other) at
        (user_table_update-update_cells env fuel timeout u w (front ++ (a, i) ∷ []) d fresh enough)

  -- The update ended with a table of distinct nodes that lists no client twice, at most one user
  -- longer, and with the sender in it if the code is 0; the code is 0 or 1.
  pub record Updated (xs : Cells) (r : Run W (ℕ × Table)) : Type 0 where
    pub code : ℕ
    pub users : Cells
    pub world : W
    pub ends : r ≡ ok (code, table_of timeout users) (layout users) world
    pub distinct : IsDistinct users
    pub unique : IsUnique users
    pub bounded : length users ≤ length xs + 1
    pub small : code ≤ 1
    pub listed : code ≡ 0 → Listed u users

  -- For distinct nodes, no client twice, an address of malloc(3) that is not among them and fuel for
  -- each, an update ends; it keeps the nodes distinct and the clients too, adds at most one user, its
  -- code is 0 or 1, and where it is 0 the sender is in the table.
  pub user_table_update-Updated :
      (xs : Cells)
      → IsDistinct xs
      → IsUnique xs
      → has env.malloc xs ≡ false
      → length xs < fuel
      → Updated xs
          (user_table_update fuel env (table_of timeout xs) (user u null null) (layout xs) w)
  user_table_update-Updated xs d unique fresh enough =
      let o = update_cells env timeout u 0 xs in
      record {
        code = o.code;
        users = o.users;
        world = notify env.timeout_func o.gone w;
        ends = user_table_update-update_cells env fuel timeout u w xs d fresh enough;
        distinct = update_cells-IsDistinct env timeout u 0 xs d fresh;
        unique = update_cells-IsUnique env timeout u 0 xs unique;
        bounded = (update_cells-code env timeout u 0 xs).1;
        small = elim (update_cells-code env timeout u 0 xs).0 [
          | inl e ↦ omega (arith, e)
          | inr e ↦ omega (arith, e)
        ];
        listed = update_cells-Listed env timeout u 0 xs;
      }
