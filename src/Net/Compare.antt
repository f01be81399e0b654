-- ===== src/Net/Compare.antt =====
-- What `sockaddr_cmp` of udpchat/src/util/net.c compares, and in which order.
use csockets.Base.{
  ℕ, ◌≡◌, refl, ◌≢◌, ◌↔◌, List, [], ◌∷◌, Ordering, ltb, Bool-cases, inl, inr, sym, ◌∙◌, ◌==◌,
  if◌then◌else◌, take, drop, arith,
}
use csockets.Net.{
  Storage, af_inet, af_inet6, sockaddr_in_len, sockaddr_in6_len, sin_family, sin_port, memcmp,
  sockaddr_cmp,
}

pub flip : Ordering → Ordering
flip Ordering.lt = Ordering.gt
flip Ordering.eq = Ordering.eq
flip Ordering.gt = Ordering.lt

memcmp-eq : (xs ys : List ℕ) → memcmp xs ys ≡ Ordering.eq → xs ≡ ys
unfolding memcmp
memcmp-eq [] [] h = refl
memcmp-eq [] (y ∷ ys) h = ground arith
memcmp-eq (x ∷ xs) [] h = ground arith
memcmp-eq (x ∷ xs) (y ∷ ys) h = ground (arith, memcmp-eq xs ys)

memcmp_refl : (xs : List ℕ) → memcmp xs xs ≡ Ordering.eq
unfolding memcmp
memcmp_refl [] = refl
memcmp_refl (x ∷ xs) = ground (arith, memcmp_refl xs)

memcmp-flip : (xs ys : List ℕ) → memcmp ys xs ≡ flip (memcmp xs ys)
unfolding memcmp flip
memcmp-flip [] [] = refl
memcmp-flip [] (y ∷ ys) = refl
memcmp-flip (x ∷ xs) [] = refl
memcmp-flip (x ∷ xs) (y ∷ ys) = ground (arith, memcmp-flip xs ys)

memcmp_nil : (xs : List ℕ) → memcmp xs [] ≢ Ordering.lt
unfolding memcmp
memcmp_nil [] h = cc
memcmp_nil (x ∷ xs) h = cc

memcmp_trans :
    (xs ys zs : List ℕ)
    → memcmp xs ys ≡ Ordering.lt
    → memcmp ys zs ≡ Ordering.lt
    → memcmp xs zs ≡ Ordering.lt
unfolding memcmp
memcmp_trans xs ys [] h k = ground (arith, memcmp_nil ys)
memcmp_trans [] ys (z ∷ zs) h k = refl
memcmp_trans (x ∷ xs) [] (z ∷ zs) h k = ground arith
memcmp_trans (x ∷ xs) (y ∷ ys) (z ∷ zs) h k = ground (arith, memcmp_trans xs ys zs)

-- What the comparison looks at, in this order: the family, the port of an internet address, and
-- the bytes that memcmp(3) is given.
endpoint_tail : ℕ → Storage → ℕ → List ℕ
endpoint_tail family a len =
    if family == af_inet
    then sin_port a ∷ take sockaddr_in_len (drop 4 a)
    else if family == af_inet6
    then sin_port a ∷ take sockaddr_in6_len (drop 8 a)
    else take len a

pub endpoint : Storage → ℕ → List ℕ
unfolding endpoint_tail
endpoint a len = sin_family a ∷ endpoint_tail (sin_family a) a len

pub endpoint-bytes :
    (a b : Storage) (len : ℕ)
    → endpoint a len ≡ endpoint b len
    → (sin_family a ≡ sin_family b)
      × (sin_family a ≡ af_inet → take sockaddr_in_len (drop 4 a) ≡ take sockaddr_in_len (drop 4 b))
      × (sin_family a ≡ af_inet6
          → take sockaddr_in6_len (drop 8 a) ≡ take sockaddr_in6_len (drop 8 b))
unfolding endpoint
endpoint-bytes a b len e = (ground arith, λ f. ground arith, λ f. ground arith)

-- One field of a comparison, field by field.
compare_field :
    (x y : ℕ) (o : Ordering) (xs ys : List ℕ)
    → (x ≡ y → o ≡ memcmp xs ys)
    → (if ltb x y then Ordering.lt else if ltb y x then Ordering.gt else o)
      ≡ memcmp (x ∷ xs) (y ∷ ys)
unfolding memcmp
compare_field x y o xs ys rest = ground (arith, rest)

-- The comparison is the lexicographic order of the endpoints: the family, then for an internet
-- address the port and the bytes behind it that memcmp(3) is given, else the bytes of the whole.
pub sockaddr_cmp-endpoint :
    (a b : Storage) (len : ℕ) → sockaddr_cmp a b len ≡ memcmp (endpoint a len) (endpoint b len)
unfolding sockaddr_cmp endpoint
sockaddr_cmp-endpoint a b len = compare_field (sin_family a) (sin_family b) _ _ _ λ e.
    rw (← e) (elim (Bool-cases (sin_family a == af_inet)) [
      | inl h ↦ rw (h, endpoint_tail) (compare_field (sin_port a) (sin_port b) _ _ _ λ _. refl)
      | inr h ↦ elim (Bool-cases (sin_family a == af_inet6)) [
        | inl k ↦ rw (h, k, endpoint_tail) (compare_field (sin_port a) (sin_port b) _ _ _ λ _. refl)
        | inr k ↦ rw (h, k, endpoint_tail) refl
      ]
    ])

module _ (a b : Storage) (len : ℕ) where
  -- Swapping the two addresses negates the result.
  pub sockaddr_cmp-flip : sockaddr_cmp b a len ≡ flip (sockaddr_cmp a b len)
  sockaddr_cmp-flip =
      rw (sockaddr_cmp-endpoint b a len, sockaddr_cmp-endpoint a b len) (memcmp-flip _ _)

  -- Two addresses compare equal exactly when their endpoints are the same.
  pub sockaddr_cmp-eq_iff : (sockaddr_cmp a b len ≡ Ordering.eq) ↔ (endpoint a len ≡ endpoint b len)
  sockaddr_cmp-eq_iff =
      rw (sockaddr_cmp-endpoint a b len) (memcmp-eq _ _, λ e. rw e (memcmp_refl _))

  -- An address that is less than a second one is less than each that the second is less than.
  pub sockaddr_cmp_trans :
      (c : Storage)
      → sockaddr_cmp a b len ≡ Ordering.lt
      → sockaddr_cmp b c len ≡ Ordering.lt
      → sockaddr_cmp a c len ≡ Ordering.lt
  sockaddr_cmp_trans c h k =
      sockaddr_cmp-endpoint a c len
      ∙ memcmp_trans _ _ _ (sym (sockaddr_cmp-endpoint a b len) ∙ h)
          (sym (sockaddr_cmp-endpoint b c len) ∙ k)
