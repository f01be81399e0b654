-- ===== src/Users/Links.antt =====
-- The pointer operations of udpchat/src/users.c, at the memory that stands for a list of users.
use mathlib.Core.Path.{fun_ext}
use csockets.Base.{◌≡◌, ◌≢◌, sym, false, none, some, ◌∷◌, ◌++◌, arith, ◌==◌, if◌then◌else◌}
use csockets.Heap.{
  Ptr, null, Info, User, user, zero_info, Heap, write, ok, pure, store, set_next, set_prev, ◌>>◌,
}
use csockets.Heap.Commands.{
  ok_heap, load-ok, set_next-ok, set_prev-ok, free-ok, clear-ok, write_self, write_ne,
}
use csockets.Users.{Table, unlink, remove}
use csockets.Users.Layout.{
  Cells, first, final, IsDistinct, layout, segment-append, segment_absent, IsDistinct-middle,
}

module _ (ys : Cells) (a : Ptr) (i : Info) (xs : Cells) (d : IsDistinct (ys ++ (a, i) ∷ xs)) where
  -- The node of a user: its data, the next node and the one before.
  pub layout_node : layout (ys ++ (a, i) ∷ xs) a ≡ some (user i (first xs null) (final null ys))
  layout_node = ground (
    arith,
    IsDistinct-middle ys a i xs d,
    segment-append null ys ((a, i) ∷ xs) null a,
    segment_absent null ys a a,
  )

  -- Writing the data of one node.
  pub write-layout :
      (j : Info)
      → write (layout (ys ++ (a, i) ∷ xs)) a (some (user j (first xs null) (final null ys)))
        ≡ layout (ys ++ (a, j) ∷ xs)
  unfolding write
  write-layout j = fun_ext λ x. ground (
    arith,
    IsDistinct-middle ys a i xs d,
    segment-append null ys ((a, i) ∷ xs) null x,
    segment-append null ys ((a, j) ∷ xs) null x,
    segment_absent null ys a x,
  )

pub null_test : (p : Ptr) → p ≢ null → (p == null) ≡ false
null_test p ne = ground arith

module _ {W : Type 0} (h : Heap) (t : Table) (w : W) {a q : Ptr} {i : Info} {n : User} where
  pub remove_first :
      a ≢ null
      → q ≢ null
      → a ≢ q
      → h a ≡ some (user i q null)
      → h q ≡ some n
      → remove t a h w
        ≡ ok
            (record t { start = q })
            (λ x. if x == a then none else if x == q then some (record n { prev = null }) else h x)
            w
  unfolding remove unlink write
  remove_first na nq ne ha hq =
      let n' : User = record n { prev = null } in
      let z : User = user zero_info null null in
      let h₁ = write h q (some n') in
      rw
        (
          load-ok h w na ha,
          null_test q nq,
          set_prev-ok h w nq hq null,
          clear-ok h₁ w na (write_ne h q n' ne ha),
          free-ok (write h₁ a (some z)) w na (write_self h₁ a z),
        )
        (ok_heap λ x. ground arith)

  pub remove_middle :
      {f : Ptr} {m : User}
      → a ≢ null
      → f ≢ null
      → q ≢ null
      → a ≢ q
      → a ≢ f
      → q ≢ f
      → h a ≡ some (user i q f)
      → h f ≡ some m
      → h q ≡ some n
      → remove t a h w
        ≡ ok t
            (λ x.
              if x == a
              then none
              else if x == q
              then some (record n { prev = f })
              else if x == f
              then some (record m { next = q })
              else h x)
            w
  unfolding remove unlink write
  remove_middle {f} {m} na nf nq aq af qf ha hf hq =
      let m' : User = record m { next = q } in
      let n' : User = record n { prev = f } in
      let z : User = user zero_info null null in
      let h₁ = write h f (some m') in
      let h₂ = write h₁ q (some n') in
      rw
        (
          load-ok h w na ha,
          null_test q nq,
          null_test f nf,
          set_next-ok h w nf hf q,
          load-ok h₁ w na (write_ne h f m' af ha),
          set_prev-ok h₁ w nq (write_ne h f m' qf hq) f,
          clear-ok h₂ w na (write_ne h₁ q n' aq (write_ne h f m' af ha)),
          free-ok (write h₂ a (some z)) w na (write_self h₂ a z),
        )
        (ok_heap λ x. ground arith)

-- A user added behind the last node `f`.
module _ {W A : Type 0} (h : Heap) (w : W) (r : A) (i : Info) {a f : Ptr} {n : User} where
  pub add_behind :
      a ≢ null
      → f ≢ null
      → a ≢ f
      → h f ≡ some n
      → (do store a (some (user i null null)); set_next f a; set_prev a f; pure r) h w
        ≡ ok r
            (λ x.
              if x == a
              then some (user i null f)
              else if x == f
              then some (record n { next = a })
              else h x)
            w
  unfolding write
  add_behind na nf ne hf =
      let m : User = user i null null in
      let n' : User = record n { next = a } in
      let h₁ = write h a (some m) in
      rw
        (
          set_next-ok h₁ w nf (write_ne h a m (λ e. ne (sym e)) hf) a,
          set_prev-ok (write h₁ f (some n')) w na (write_ne h₁ f n' ne (write_self h a m)) f,
        )
        (ok_heap λ x. ground arith)
