-- ===== src/Base/Families.antt =====
-- Functions from numbers that are changed at one place: what each of several threads has.
use Prim.Native.Nat.{ℕ, zero, suc, ◌+◌, ◌*◌, ◌≤◌, ◌<◌}
use mathlib.Core.Path.{◌≡◌, refl}
use mathlib.Core.Bool.{false}
use mathlib.Core.Logic.{inl, inr}
use native.Mathlib.Omega.{arith}
use csockets.Base.Tests.{◌==◌, if◌then◌else◌, ==_refl, ==_eq, Bool-cases}

abbrev pub update {ℓ} : {A : Type ℓ} → (ℕ → A) → ℕ → A → ℕ → A
update f i a j = if i == j then a else f j

module _ {ℓ} {A : Type ℓ} (f : ℕ → A) (i : ℕ) (a : A) where
  pub update_self : update f i a i ≡ a
  update_self = rw (==_refl i) refl

  pub update_other : (j : ℕ) → (i == j) ≡ false → update f i a j ≡ f j
  update_other j e = rw e refl

abbrev pub sum_below : (ℕ → ℕ) → ℕ → ℕ
sum_below f zero = 0
sum_below f (suc n) = sum_below f n + f n

sum_below_same :
    (f g : ℕ → ℕ) (n i : ℕ)
    → n ≤ i
    → ((j : ℕ) → (i == j) ≡ false → f j ≡ g j)
    → sum_below f n ≡ sum_below g n
sum_below_same f g zero i le h = refl
sum_below_same f g (suc n) i le h =
    omega (arith, sum_below_same f g n i (omega arith) h, h n (ground arith))

-- Functions that differ at one place.
pub sum_below-lt :
    (f g : ℕ → ℕ) (n i : ℕ)
    → i < n
    → f i < g i
    → ((j : ℕ) → (i == j) ≡ false → f j ≡ g j)
    → sum_below f n < sum_below g n
sum_below-lt f g zero i below lt h = absurd (omega arith)
sum_below-lt f g (suc n) i below lt h = elim (Bool-cases (i == n)) [
  | inl e ↦
      let same : i ≡ n = ==_eq i n e in
      omega (arith, sum_below_same f g n i (omega arith) h, rw same at lt)
  | inr e ↦ omega (arith, sum_below-lt f g n i (ground arith) lt h, h n e)
]

pub sum_below-le : (f : ℕ → ℕ) (n m : ℕ) → ((j : ℕ) → f j ≤ m) → sum_below f n ≤ m * n
sum_below-le f zero m h = omega arith
sum_below-le f (suc n) m h = grind (arith, sum_below-le f n m h, h n)
