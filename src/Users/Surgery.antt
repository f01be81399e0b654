-- ===== src/Users/Surgery.antt =====
-- Removal and addition in udpchat/src/users.c, from one list of users to another.
use csockets.Base.{
  ℕ, ◌≡◌, ◌≢◌, refl, ◌∙◌, false, none, some, [], ◌∷◌, ◌++◌, arith, ◌==◌, if◌then◌else◌, Bool-cases,
  inl, inr, ne_of_test,
}
use csockets.Heap.{Ptr, null, Info, User, user, write, ok}
use csockets.Heap.Commands.{ok_heap}
use csockets.Users.{Env, remove, link_last, add_last}
use csockets.Users.Layout.{
  Cells, first, final, has, IsDistinct, segment, layout, table_of, segment-append, segment_absent,
  final-append, has-final, segment_relink, segment-final, IsDistinct-middle, IsDistinct-disjoint,
  ne_null_of_has, ne_of_has,
}
use csockets.Users.Roster.{extend}
use csockets.Users.Links.{remove_first, remove_middle, add_behind, null_test, layout_node}

module _ (ys : Cells) (a : Ptr) (i : Info) (q : Ptr) (j : Info) (xs : Cells)
    (d : IsDistinct (ys ++ (a, i) ∷ (q, j) ∷ xs)) where
  abbrev Apart : Type 0
  Apart =
      IsDistinct ys
      × (a ≢ null)
      × (q ≢ null)
      × (a ≢ q)
      × (has a ys ≡ false)
      × (has q ys ≡ false)
      × (has a xs ≡ false)
      × (has q xs ≡ false)

  apart : Apart
  apart =
      let (dy, na, ay, aq, dq) = IsDistinct-middle ys a i ((q, j) ∷ xs) d in
      let qy = IsDistinct-disjoint ys ((a, i) ∷ (q, j) ∷ xs) q d (ground arith) in
      (dy, na, dq.0, ground arith, ay, qy, ground arith, dq.1)

  layout_next : layout (ys ++ (a, i) ∷ (q, j) ∷ xs) q ≡ some (user j (first xs null) a)
  layout_next = ground (
    arith,
    apart,
    segment-append null ys ((a, i) ∷ (q, j) ∷ xs) null q,
    segment_absent null ys a q,
  )

  -- The memory after the removal, address by address; `m` is the node before.
  layout_removed :
      (m : User)
      → segment null ys a (final null ys) ≡ some m
      → (x : Ptr)
      → (if x == a
          then none
          else if x == q
          then some (user j (first xs null) (final null ys))
          else if x == final null ys
          then some (record m { next = q })
          else layout (ys ++ (a, i) ∷ (q, j) ∷ xs) x)
        ≡ layout (ys ++ (q, j) ∷ xs) x
  layout_removed m e x =
      let s = apart in
      rw
        (
          segment-append null ys ((a, i) ∷ (q, j) ∷ xs) null x,
          segment-append null ys ((q, j) ∷ xs) null x,
          segment_relink null ys a q x s.0,
        )
        (ground (arith, s, segment_absent null ys a x, segment_absent q xs null x))

-- Removing a user that another one follows gives the memory and the table of the shorter list.
pub remove-layout :
    {W : Type 0} (timeout : ℕ) (w : W) (ys : Cells) (a : Ptr) (i : Info) (q : Ptr) (j : Info)
    (xs : Cells)
    → IsDistinct (ys ++ (a, i) ∷ (q, j) ∷ xs)
    → remove
        (table_of timeout (ys ++ (a, i) ∷ (q, j) ∷ xs))
        a
        (layout (ys ++ (a, i) ∷ (q, j) ∷ xs))
        w
      ≡ ok (table_of timeout (ys ++ (q, j) ∷ xs)) (layout (ys ++ (q, j) ∷ xs)) w
remove-layout timeout w [] a i q j xs d =
    let s = apart [] a i q j xs d in
    remove_first _ _ w s.1 s.2 s.3 (layout_node [] a i ((q, j) ∷ xs) d)
      (layout_next [] a i q j xs d)
    ∙ ok_heap λ x. ground (arith, s, segment_absent null ((q, j) ∷ xs) null x)
remove-layout timeout w ((b, k) ∷ ys) a i q j xs d =
    let s = apart ((b, k) ∷ ys) a i q j xs d in
    let f = final b ys in
    let (k', p, e) = segment-final null b k ys a s.0 in
    let hf = has-final b k ys in
    rw (final-append b ys ((a, i) ∷ (q, j) ∷ xs), final-append b ys ((q, j) ∷ xs))
      (remove_middle _ _ w {f = f} {m = user k' a p} s.1 (ne_null_of_has ((b, k) ∷ ys) f s.0 hf) s.2
          s.3 (ne_of_has ((b, k) ∷ ys) a f s.4 hf) (ne_of_has ((b, k) ∷ ys) q f s.5 hf)
          (layout_node ((b, k) ∷ ys) a i ((q, j) ∷ xs) d)
          (rw (segment-append null ((b, k) ∷ ys) ((a, i) ∷ (q, j) ∷ xs) null f, e) refl)
          (layout_next ((b, k) ∷ ys) a i q j xs d)
        ∙ ok_heap (layout_removed ((b, k) ∷ ys) a i q j xs d (user k' a p) e))

-- The memory after an addition, address by address; `m` is the last node so far.
layout_added :
    (ys : Cells) (a : Ptr) (i : Info) (m : User)
    → IsDistinct ys
    → has a ys ≡ false
    → segment null ys null (final null ys) ≡ some m
    → (x : Ptr)
    → (if x == a
        then some (user i null (final null ys))
        else if x == final null ys
        then some (record m { next = a })
        else layout ys x)
      ≡ layout (ys ++ (a, i) ∷ []) x
layout_added ys a i m d fresh e x =
    rw (segment-append null ys ((a, i) ∷ []) null x, segment_relink null ys null a x d)
      (ground (arith, segment_absent null ys null x))

link_last-layout :
    {W : Type 0} (a : Ptr) (timeout : ℕ) (w : W) (i : Info) (xs : Cells)
    → a ≢ null
    → IsDistinct xs
    → has a xs ≡ false
    → link_last (table_of timeout xs) a (user i null null) (layout xs) w
      ≡ ok (0, table_of timeout (xs ++ (a, i) ∷ [])) (layout (xs ++ (a, i) ∷ [])) w
unfolding link_last write
link_last-layout a timeout w i [] na d fresh = ok_heap λ x. refl
link_last-layout a timeout w i ((b, k) ∷ ys) na d fresh =
    let (k', p, e) = segment-final null b k ys null d in
    let f = final b ys in
    let hf = has-final b k ys in
    rw (null_test b d.0, final-append b ys ((a, i) ∷ []))
      (add_behind _ w _ i {n = user k' null p} na (ne_null_of_has ((b, k) ∷ ys) f d hf)
          (ne_of_has ((b, k) ∷ ys) a f fresh hf) e
        ∙ ok_heap (layout_added ((b, k) ∷ ys) a i (user k' null p) d fresh e))

-- A new user goes behind the last one, unless malloc(3) fails.
pub add_last-layout :
    {W : Type 0} (env : Env W) (timeout : ℕ) (w : W) (i : Info) (xs : Cells)
    → IsDistinct xs
    → has env.malloc xs ≡ false
    → add_last env (table_of timeout xs) (user i null null) (layout xs) w
      ≡ ok
          ((if env.malloc == null then 1 else 0), table_of timeout (extend env.malloc xs i))
          (layout (extend env.malloc xs i))
          w
unfolding add_last
add_last-layout env timeout w i xs d fresh = elim (Bool-cases (env.malloc == null)) [
  | inl e ↦ rw e
  | inr e ↦ rw e (link_last-layout env.malloc timeout w i xs (ne_of_test env.malloc null e) d fresh)
]
