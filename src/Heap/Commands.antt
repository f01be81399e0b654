-- ===== src/Heap/Commands.antt =====
-- What the commands do at an address that holds a node.
use mathlib.Core.Path.{fun_ext}
use csockets.Base.{ap, ◌≡◌, ◌≢◌, none, some, arith}
use csockets.Heap.{
  Ptr, null, Info, User, user, zero_info, Heap, write, Run, ok, load, set_next, set_prev, set_info,
  clear, free,
}

module _ {W : Type 0} (h : Heap) {p : Ptr} {n : User} (w : W) (ne : p ≢ null)
    (e : h p ≡ some n) where
  pub load-ok : load p h w ≡ ok n h w
  unfolding load
  load-ok = ground arith

  pub set_next-ok :
      (q : Ptr) → set_next p q h w ≡ ok tt (write h p (some (record n { next = q }))) w
  unfolding set_next
  set_next-ok q = rw load-ok

  pub set_prev-ok :
      (q : Ptr) → set_prev p q h w ≡ ok tt (write h p (some (record n { prev = q }))) w
  unfolding set_prev
  set_prev-ok q = rw load-ok

  pub set_info-ok :
      (i : Info) → set_info p i h w ≡ ok tt (write h p (some (record n { info = i }))) w
  unfolding set_info
  set_info-ok i = rw load-ok

  pub free-ok : free p h w ≡ ok tt (write h p none) w
  unfolding free
  free-ok = rw load-ok

  pub clear-ok : clear p h w ≡ ok tt (write h p (some (user zero_info null null))) w
  unfolding clear
  clear-ok = rw load-ok

-- Reading back from a changed heap.
pub write_self : (h : Heap) (p : Ptr) (n : User) → write h p (some n) p ≡ some n
unfolding write
write_self h p n = ground arith

pub write_ne :
    (h : Heap) (p : Ptr) (n : User) {a : Ptr} {m : User}
    → a ≢ p
    → h a ≡ some m
    → write h p (some n) a ≡ some m
unfolding write
write_ne h p n ne e = ground arith

-- Two runs that end with one value agree if their memories do.
pub ok_heap :
    {W A : Type 0} {a : A} {w : W} {g h : Heap}
    → ((x : Ptr) → g x ≡ h x)
    → ◌≡◌ {A = Run W A} (ok a g w) (ok a h w)
ok_heap {W} {A} {a} {w} e = ap {B = Run W A} (λ k. ok a k w) (fun_ext e)
