-- ===== src/Users/Layout.antt =====
-- The memory that stands for a list of users: one node for each, linked both ways.
use csockets.Base.{
  ℕ, ◌≡◌, ◌≢◌, refl, sym, ap, Bool, true, false, ◌||◌, Option, none, some, List, [], ◌∷◌, ◌++◌,
  arith, ◌==◌, if◌then◌else◌,
}
use mathlib.Core.Option
use csockets.Heap.{Ptr, null, Info, User, user, Heap}
use csockets.Users.{Table}

-- The address and the data of each node, in order.
abbrev pub Cells : Type 0
Cells = List (Ptr × Info)

-- The address of the first node, and what stands behind the last one if there is none.
abbrev pub first : Cells → Ptr → Ptr
first [] stop = stop
first ((a, _) ∷ _) stop = a

-- The address of the last node, and what stands before the first one if there is none.
abbrev pub final : Ptr → Cells → Ptr
final prev [] = prev
final prev ((a, _) ∷ xs) = final a xs

abbrev pub has : Ptr → Cells → Bool
has a [] = false
has a ((b, _) ∷ xs) = (a == b) || has a xs

-- No node at NULL, and no two nodes at one address.
abbrev pub IsDistinct : Cells → Type 0
IsDistinct [] = Unit {0}
IsDistinct ((a, _) ∷ xs) = (a ≢ null) × (has a xs ≡ false) × IsDistinct xs

-- The nodes of a segment that is entered from `prev` and leads to `stop`.
abbrev pub segment : Ptr → Cells → Ptr → Heap
segment prev [] stop a = none
segment prev ((b, i) ∷ xs) stop a =
    if a == b then some (user i (first xs stop) prev) else segment b xs stop a

abbrev pub layout : Cells → Heap
layout xs = segment null xs null

abbrev pub table_of : ℕ → Cells → Table
table_of timeout xs = record { start = first xs null; end = final null xs; timeout = timeout }

abbrev pub or_else : Option User → Option User → Option User
or_else none y = y
or_else (some x) y = some x

pub segment-append :
    (prev : Ptr) (ys xs : Cells) (stop a : Ptr)
    → segment prev (ys ++ xs) stop a
      ≡ or_else (segment prev ys (first xs stop) a) (segment (final prev ys) xs stop a)
segment-append prev [] xs stop a = refl
segment-append prev ((b, i) ∷ []) xs stop a = ground arith
segment-append prev ((b, i) ∷ c ∷ ys) xs stop a =
    ground (arith, segment-append b (c ∷ ys) xs stop a)

pub segment_absent :
    (prev : Ptr) (xs : Cells) (stop a : Ptr) → has a xs ≡ false → segment prev xs stop a ≡ none
segment_absent prev [] stop a h = refl
segment_absent prev ((b, i) ∷ xs) stop a h = ground (arith, segment_absent b xs stop a)

pub has-append : (a : Ptr) (ys xs : Cells) → has a (ys ++ xs) ≡ (has a ys || has a xs)
has-append a [] xs = refl
has-append a ((b, i) ∷ ys) xs = ground (arith, has-append a ys xs)

pub first-append : (ys xs : Cells) (stop : Ptr) → first (ys ++ xs) stop ≡ first ys (first xs stop)
first-append [] xs stop = refl
first-append (y ∷ ys) xs stop = refl

pub final-append : (prev : Ptr) (ys xs : Cells) → final prev (ys ++ xs) ≡ final (final prev ys) xs
final-append prev [] xs = refl
final-append prev ((b, i) ∷ ys) xs = final-append b ys xs

-- The last node is one of the nodes.
pub has-final : (b : Ptr) (i : Info) (ys : Cells) → has (final b ys) ((b, i) ∷ ys) ≡ true
has-final b i [] = ground arith
has-final b i ((c, j) ∷ ys) = ground (arith, has-final c j ys)

-- Another `stop` changes the `next` of the last node only.
pub segment_relink :
    (prev : Ptr) (ys : Cells) (stop stop' a : Ptr)
    → IsDistinct ys
    → segment prev ys stop' a ≡ (
        if a == final prev ys
        then Option.map (λ (n : User). record n { next = stop' }) (segment prev ys stop a)
        else segment prev ys stop a)
segment_relink prev [] stop stop' a d = ground arith
segment_relink prev ((b, i) ∷ []) stop stop' a d = ground arith
segment_relink prev ((b, i) ∷ (c, j) ∷ ys) stop stop' a d =
    ground (arith, segment_relink b ((c, j) ∷ ys) stop stop' a, has-final c j ys)

-- What the last node holds.
pub segment-final :
    (prev b : Ptr) (i : Info) (ys : Cells) (stop : Ptr)
    → IsDistinct ((b, i) ∷ ys)
    → (j : Info) × (p : Ptr) × (segment prev ((b, i) ∷ ys) stop (final b ys) ≡ some (user j stop p))
segment-final prev b i [] stop d = (i, prev, ground arith)
segment-final prev b i ((c, j) ∷ ys) stop d =
    let (k, p, e) = segment-final b c j ys stop d.2 in (k, p, ground (arith, has-final c j ys))

pub IsDistinct-append :
    (ys xs : Cells)
    → IsDistinct ys
    → IsDistinct xs
    → ((a : Ptr) → has a ys ≡ true → has a xs ≡ false)
    → IsDistinct (ys ++ xs)
IsDistinct-append [] xs d e apart = e
IsDistinct-append ((b, i) ∷ ys) xs d e apart = (
  d.0,
  ground (arith, has-append b ys xs, apart b),
  IsDistinct-append ys xs d.2 e (λ a h. apart a (ground arith)),
)

-- A node apart from those before it and behind it.
pub IsDistinct-middle :
    (ys : Cells) (a : Ptr) (i : Info) (xs : Cells)
    → IsDistinct (ys ++ (a, i) ∷ xs)
    → IsDistinct ys × (a ≢ null) × (has a ys ≡ false) × (has a xs ≡ false) × IsDistinct xs
IsDistinct-middle [] a i xs d = (tt, d.0, refl, d.1, d.2)
IsDistinct-middle ((b, j) ∷ ys) a i xs d =
    let (p, q, r, s, t) = IsDistinct-middle ys a i xs d.2 in
    (
      (d.0, ground (arith, has-append b ys ((a, i) ∷ xs)), p),
      q,
      ground (arith, has-append b ys ((a, i) ∷ xs)),
      s,
      t,
    )

pub IsDistinct-disjoint :
    (ys xs : Cells) (a : Ptr) → IsDistinct (ys ++ xs) → has a xs ≡ true → has a ys ≡ false
IsDistinct-disjoint [] xs a d h = refl
IsDistinct-disjoint ((b, j) ∷ ys) xs a d h =
    ground (arith, has-append b ys xs, IsDistinct-disjoint ys xs a d.2 h)

pub ne_null_of_has : (xs : Cells) (a : Ptr) → IsDistinct xs → has a xs ≡ true → a ≢ null
ne_null_of_has [] a d h = cc
ne_null_of_has ((b, j) ∷ xs) a d h = ground (arith, ne_null_of_has xs a d.2)

pub ne_of_has : (xs : Cells) (a b : Ptr) → has a xs ≡ false → has b xs ≡ true → a ≢ b
ne_of_has xs a b h k e = cc (sym h, ap (λ x. has x xs) e, k)

pub has_drop :
    (b : Ptr) (ys : Cells) (a : Ptr) (i : Info) (xs : Cells)
    → has b (ys ++ (a, i) ∷ xs) ≡ false
    → has b (ys ++ xs) ≡ false
has_drop b ys a i xs h = ground (arith, has-append b ys ((a, i) ∷ xs), has-append b ys xs)

pub IsDistinct-drop :
    (ys : Cells) (a : Ptr) (i : Info) (xs : Cells)
    → IsDistinct (ys ++ (a, i) ∷ xs)
    → IsDistinct (ys ++ xs)
IsDistinct-drop [] a i xs d = d.2
IsDistinct-drop ((b, j) ∷ ys) a i xs d =
    (d.0, has_drop b ys a i xs d.1, IsDistinct-drop ys a i xs d.2)
