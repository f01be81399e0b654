-- ===== src/Users/Traverse.antt =====
-- `user_table_every` and `user_table_free` of udpchat/src/users.c: the walks over the whole list.
use mathlib.Core.List.{append_assoc}
use mathlib.Core.Path.{fun_ext}
use csockets.Base.{
  ℕ, zero, suc, ◌<◌, ◌≡◌, refl, List, [], ◌∷◌, ◌++◌, map, none, arith, length, Bool-cases, inl, inr,
  if◌then◌else◌, ◌==◌, some,
}
use csockets.Heap.{Ptr, null, Info, User, user, load, zero_info, Heap, write, ok, fault}
use csockets.Heap.Commands.{load-ok, clear-ok, free-ok, write_self}
use csockets.Users.{every_loop, user_table_every, free_loop, user_table_free}
use csockets.Users.Layout.{
  Cells, first, IsDistinct, segment, segment_absent, layout, table_of, IsDistinct-middle,
}
use csockets.Users.Links.{null_test, layout_node}
use csockets.Users.Roster.{notify}

abbrev pub infos : Cells → List Info
infos xs = map (λ c. c.1) xs

every_loop-notify :
    {W : Type 0} (f : Info → W → W) (k : ℕ) (w : W) (ys xs : Cells)
    → IsDistinct (ys ++ xs)
    → length xs < k
    → every_loop f k (first xs null) (layout (ys ++ xs)) w
      ≡ ok 0 (layout (ys ++ xs)) (notify f (infos xs) w)
unfolding every_loop notify
every_loop-notify f zero w ys xs d fuel = absurd (omega arith)
every_loop-notify f (suc k) w ys [] d fuel = refl
every_loop-notify f (suc k) w ys ((a, i) ∷ xs) d fuel =
    let na = (IsDistinct-middle ys a i xs d).1 in
    rw (null_test a na, load-ok _ w na (layout_node ys a i xs d))
      (simp append_assoc at (
        every_loop-notify f k (f i w) (ys ++ (a, i) ∷ []) xs
          (rw (append_assoc ys ((a, i) ∷ []) xs) d) (omega arith)))

-- For distinct nodes and more fuel than nodes, `user_table_every` calls the function on every user
-- of the table once, in order, and changes nothing else.
pub user_table_every-notify :
    {W : Type 0} (f : Info → W → W) (fuel timeout : ℕ) (w : W) (xs : Cells)
    → IsDistinct xs
    → length xs < fuel
    → user_table_every fuel f (table_of timeout xs) (layout xs) w
      ≡ ok 0 (layout xs) (notify f (infos xs) w)
unfolding user_table_every
user_table_every-notify f fuel timeout w xs d enough = every_loop-notify f fuel w [] xs d enough

segment_node :
    (prev a : Ptr) (i : Info) (xs : Cells)
    → segment prev ((a, i) ∷ xs) null a ≡ some (user i (first xs null) prev)
segment_node prev a i xs = ground arith

-- The memory once the first node has been cleared and given back.
segment_freed :
    (prev a : Ptr) (i : Info) (xs : Cells)
    → IsDistinct ((a, i) ∷ xs)
    → write (write (segment prev ((a, i) ∷ xs) null) a (some (user zero_info null null))) a none
      ≡ segment a xs null
unfolding write
segment_freed prev a i xs d = fun_ext λ x. ground (arith, segment_absent a xs null x)

module _ {W : Type 0} (k : ℕ) (w : W) (prev a : Ptr) (i : Info) (xs : Cells)
    (d : IsDistinct ((a, i) ∷ xs)) where
  free_loop-step : free_loop (suc k) a (segment prev ((a, i) ∷ xs) null) w ≡ (
      if first xs null == null
      then ok tt (segment a xs null) w
      else free_loop k (first xs null) (segment a xs null) w)
  unfolding free_loop
  free_loop-step =
      let h = segment prev ((a, i) ∷ xs) null in
      let z : User = user zero_info null null in
      let node = segment_node prev a i xs in
      let given = clear-ok h w d.0 node in
      let back = free-ok (write h a (some z)) w d.0 (write_self h a z) in
      rw (load-ok h w d.0 node, ← segment_freed prev a i xs d)
        (elim (Bool-cases (first xs null == null)) [
          | inl e ↦ rw (e, given, back)
          | inr e ↦ rw (e, given, back)
        ])

free_loop-empty :
    {W : Type 0} (k : ℕ) (w : W) (prev a : Ptr) (i : Info) (xs : Cells)
    → IsDistinct ((a, i) ∷ xs)
    → length xs < k
    → free_loop k a (segment prev ((a, i) ∷ xs) null) w ≡ ok tt (layout []) w
free_loop-empty zero w prev a i xs d fuel = absurd (omega arith)
free_loop-empty (suc k) w prev a i [] d fuel = rw (free_loop-step k w prev a i [] d)
free_loop-empty (suc k) w prev a i ((c, j) ∷ xs) d fuel =
    rw (free_loop-step k w prev a i ((c, j) ∷ xs) d, null_test c d.2.0)
      (free_loop-empty k w a c j xs d.2 (omega arith))

free_loop-null : {W : Type 0} (k : ℕ) (w : W) (h : Heap) → 0 < k → free_loop k null h w ≡ fault
unfolding free_loop load
free_loop-null zero w h fuel = absurd (omega arith)
free_loop-null (suc k) w h fuel = refl

-- For distinct nodes and more fuel than nodes, `user_table_free` gives every node back and zeroes
-- the table, unless the table has no user: then it reads through NULL.
pub user_table_free-layout :
    {W : Type 0} (fuel timeout : ℕ) (w : W) (xs : Cells)
    → IsDistinct xs
    → length xs < fuel
    → user_table_free fuel (table_of timeout xs) (layout xs) w
      ≡ elim xs [ [] ↦ fault | c ∷ cs ↦ ok (table_of 0 []) (layout []) w ]
unfolding user_table_free
user_table_free-layout fuel timeout w [] d enough = rw (free_loop-null fuel w (layout []) enough)
user_table_free-layout fuel timeout w ((a, i) ∷ xs) d enough =
    rw (free_loop-empty fuel w null a i xs d (omega arith))
