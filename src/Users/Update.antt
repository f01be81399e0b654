-- ===== src/Users/Update.antt =====
-- `user_table_update` of udpchat/src/users.c on the memory, against the update of the list.
use mathlib.Core.List.{append_assoc}
use csockets.Base.{
  ℕ, zero, suc, ◌<◌, ◌≡◌, refl, false, [], ◌∷◌, ◌++◌, arith, ◌==◌, if◌then◌else◌, Bool-cases, inl,
  inr, length,
}
use csockets.Heap.{Ptr, null, Info, user, Run, ok}
use csockets.Heap.Commands.{load-ok, set_info-ok}
use csockets.Users.{
  Table, Env, is_same, is_expired, is_spam, refresh, refresh_last, found, sweep, add_last,
  update_last, update_loop,
}
use csockets.Users.Layout.{
  Cells, first, final, has, IsDistinct, layout, table_of, final-append, IsDistinct-middle,
  IsDistinct-drop, has_drop,
}
use csockets.Users.Links.{null_test, layout_node, write-layout}
use csockets.Users.Surgery.{remove-layout, add_last-layout}
use csockets.Users.Roster.{notify, Outcome, extend, added, answered, update_cells}

-- The run that ends as the outcome says, behind the users `ys` that were passed.
abbrev pub Done : {W : Type 0} → Env W → ℕ → Cells → Outcome → W → Run W (ℕ × Table)
Done env timeout ys o w =
    ok (o.code, table_of timeout (ys ++ o.users)) (layout (ys ++ o.users))
      (notify env.timeout_func o.gone w)

table_of_info :
    (timeout : ℕ) (ys : Cells) (a : Ptr) (i j : Info) (xs : Cells)
    → table_of timeout (ys ++ (a, i) ∷ xs) ≡ table_of timeout (ys ++ (a, j) ∷ xs)
table_of_info timeout [] a i j xs = refl
table_of_info timeout ((b, k) ∷ ys) a i j xs =
    rw (final-append b ys ((a, i) ∷ xs), final-append b ys ((a, j) ∷ xs))

extend-append : (a : Ptr) (ys xs : Cells) (u : Info) → extend a (ys ++ xs) u ≡ ys ++ extend a xs u
extend-append a ys xs u = elim (Bool-cases (a == null)) [
  | inl e ↦ rw e
  | inr e ↦ rw e (append_assoc ys xs ((a, u) ∷ []))
]

module _ {W : Type 0} (env : Env W) (timeout : ℕ) (u : Info) (w : W) where
  add_last-Done :
      (ys xs : Cells)
      → IsDistinct (ys ++ xs)
      → has env.malloc (ys ++ xs) ≡ false
      → add_last env (table_of timeout (ys ++ xs)) (user u null null) (layout (ys ++ xs)) w
        ≡ Done env timeout ys (added env.malloc xs u) w
  unfolding notify
  add_last-Done ys xs d fresh =
      rw (← extend-append env.malloc ys xs u) (add_last-layout env timeout w u (ys ++ xs) d fresh)

  module _ (ys : Cells) (a : Ptr) (i : Info) (xs : Cells) (d : IsDistinct (ys ++ (a, i) ∷ xs)) where
    found-Done :
        (new : Info)
        → found
            (table_of timeout (ys ++ (a, i) ∷ xs))
            a
            (user i (first xs null) (final null ys))
            u
            new
            (layout (ys ++ (a, i) ∷ xs))
            w
          ≡ Done env timeout ys (answered a i new u xs) w
    unfolding found notify
    found-Done new = elim (Bool-cases (is_spam i u)) [
      | inl e ↦ rw e
      | inr e ↦
          rw (e, set_info-ok _ w (IsDistinct-middle ys a i xs d).1 (layout_node ys a i xs d) new)
            (rw (write-layout ys a i xs d new, table_of_info timeout ys a i new xs) refl)
    ]

  -- A node that another one follows is dropped if it timed out.
  sweep-Done :
      (now : ℕ) (ys : Cells) (a : Ptr) (i : Info) (c : Ptr × Info) (xs : Cells)
      → IsDistinct (ys ++ (a, i) ∷ c ∷ xs)
      → sweep env now
          (table_of timeout (ys ++ (a, i) ∷ c ∷ xs))
          a
          (user i c.0 (final null ys))
          (layout (ys ++ (a, i) ∷ c ∷ xs))
          w
        ≡ (if is_expired timeout now i
            then ok (table_of timeout (ys ++ c ∷ xs)) (layout (ys ++ c ∷ xs)) (env.timeout_func i w)
            else ok (table_of timeout (ys ++ (a, i) ∷ c ∷ xs)) (layout (ys ++ (a, i) ∷ c ∷ xs)) w)
  unfolding sweep
  sweep-Done now ys a i (q, j) xs d = elim (Bool-cases (is_expired timeout now i)) [
    | inl e ↦ rw e (remove-layout timeout (env.timeout_func i w) ys a i q j xs d)
    | inr e ↦ rw e
  ]

-- The last round, at the last node.
update_last-Done :
    {W : Type 0} (env : Env W) (timeout : ℕ) (u : Info) (w : W) (ys : Cells) (a : Ptr) (i : Info)
    → IsDistinct (ys ++ (a, i) ∷ [])
    → has env.malloc (ys ++ (a, i) ∷ []) ≡ false
    → update_last env
        (table_of timeout (ys ++ (a, i) ∷ []))
        (user u null null)
        a
        (layout (ys ++ (a, i) ∷ []))
        w
      ≡ Done env timeout ys
          (if is_same i u
            then answered a i (refresh_last i u) u []
            else added env.malloc ((a, i) ∷ []) u)
          w
unfolding update_last
update_last-Done env timeout u w ys a i d fresh =
    let na = (IsDistinct-middle ys a i [] d).1 in
    rw (null_test a na, load-ok _ w na (layout_node ys a i [] d))
      (elim (Bool-cases (is_same i u)) [
        | inl e ↦ rw e (found-Done env timeout u w ys a i [] d (refresh_last i u))
        | inr e ↦ rw e (add_last-Done env timeout u w ys ((a, i) ∷ []) d fresh)
      ])

update_last-null :
    {W : Type 0} (env : Env W) (timeout : ℕ) (u : Info) (w : W) (ys : Cells)
    → IsDistinct (ys ++ [])
    → has env.malloc (ys ++ []) ≡ false
    → update_last env (table_of timeout (ys ++ [])) (user u null null) null (layout (ys ++ [])) w
      ≡ Done env timeout ys (added env.malloc [] u) w
unfolding update_last
update_last-null env timeout u w ys d fresh = add_last-Done env timeout u w ys [] d fresh

snoc :
    (ys : Cells) (a : Ptr) (i : Info) (xs : Cells) → (ys ++ (a, i) ∷ []) ++ xs ≡ ys ++ (a, i) ∷ xs
snoc ys a i xs = append_assoc ys ((a, i) ∷ []) xs

final-snoc : (ys : Cells) (a : Ptr) (i : Info) → final null (ys ++ (a, i) ∷ []) ≡ a
final-snoc ys a i = final-append null ys ((a, i) ∷ [])

-- The loop at the users `xs`, with the users `ys` behind it.
pub update_loop-Done :
    {W : Type 0} (env : Env W) (timeout : ℕ) (u : Info) (k r : ℕ) (w : W) (ys xs : Cells)
    → IsDistinct (ys ++ xs)
    → has env.malloc (ys ++ xs) ≡ false
    → length xs < k
    → update_loop env k r
        (table_of timeout (ys ++ xs))
        (user u null null)
        (first xs null)
        (layout (ys ++ xs))
        w
      ≡ Done env timeout ys (update_cells env timeout u r xs) w
unfolding update_loop update_cells notify
update_loop-Done env timeout u zero r w ys xs d fresh fuel = absurd (omega arith)
update_loop-Done env timeout u (suc k) r w ys [] d fresh fuel =
    update_last-null env timeout u w ys d fresh
update_loop-Done env timeout u (suc k) r w ys ((a, i) ∷ []) d fresh fuel =
    let na = (IsDistinct-middle ys a i [] d).1 in
    rw (null_test a na, load-ok _ w na (layout_node ys a i [] d))
      (update_last-Done env timeout u w ys a i d fresh)
update_loop-Done env timeout u (suc k) r w ys ((a, i) ∷ (c, j) ∷ xs) d fresh fuel =
    let (dy, na, ay, ax, dx) = IsDistinct-middle ys a i ((c, j) ∷ xs) d in
    rw (null_test a na, load-ok _ w na (layout_node ys a i ((c, j) ∷ xs) d), null_test c dx.0)
      (elim (Bool-cases (is_same i u)) [
        | inl e ↦ rw e (found-Done env timeout u w ys a i ((c, j) ∷ xs) d (refresh i u))
        | inr e ↦
            rw (e, sweep-Done env timeout u w (env.time r) ys a i (c, j) xs d)
              (elim (Bool-cases (is_expired timeout (env.time r) i)) [
                | inl x ↦ rw x (
                    update_loop-Done env timeout u k (suc r) (env.timeout_func i w) ys ((c, j) ∷ xs)
                      (IsDistinct-drop ys a i ((c, j) ∷ xs) d)
                      (has_drop env.malloc ys a i ((c, j) ∷ xs) fresh) (omega arith))
                | inr x ↦ rw x (
                    simp append_assoc at (
                      update_loop-Done env timeout u k (suc r) w (ys ++ (a, i) ∷ []) ((c, j) ∷ xs)
                        (rw (snoc ys a i ((c, j) ∷ xs)) d) (rw (snoc ys a i ((c, j) ∷ xs)) fresh)
                        (omega arith)))
              ])
      ])
