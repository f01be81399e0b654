-- ===== src/Chat/Start/Sockets.antt =====
-- Which sockets `main` of udpchat/src/main.c keeps, and how its calls change what is open.
use mathlib.Core.List.{append-nil, append_assoc}
use csockets.Base.{
  ℕ, suc, ◌+◌, ◌≤◌, ◌≡◌, refl, sym, inl, inr, Bool, not, ◌&&◌, ◌||◌, Option, none, some, List, [],
  ◌∷◌, ◌++◌, leb, ◌==◌, if◌then◌else◌, length, arith, Bool-cases, Option-cases, take, length-append,
  take_whole, take_exact,
}
use csockets.Net.{af_inet6}
use csockets.Net.Addrinfo.{Addrinfo}
use csockets.Chat.Master.{max_bind_count}
use csockets.Chat.Start.{
  Answers, Call, opens, closes, shuts_down, frees, starts, joins, bind_sock, bind_loop, close_all,
  shutdown_all,
}

abbrev pub unless_failed : Option ℕ → Bool → List ℕ → List ℕ
unless_failed none fails later = later
unless_failed (some sfd) fails later = if fails then later else sfd ∷ later

-- The sockets that are bound, for IPv6 also without dual stack.
abbrev pub usable : (ℕ → Answers) → ℕ → List Addrinfo → List ℕ
usable system n [] = []
usable system n (ca ∷ rest) =
    let fails = (ca.ai_family == af_inet6 && not (system n).v6only) || not (system n).bound in
    unless_failed (system n).sock fails (usable system (suc n) rest)

-- Where sfd_arr begins with at most MAX_BIND_COUNT sockets, it ends with the first of those and
-- the ones that could be bound, at most MAX_BIND_COUNT in all.
pub bind_loop-usable :
    (system : ℕ → Answers) (n : ℕ) (addr : List Addrinfo) (sfd_arr : List ℕ)
    → length sfd_arr ≤ max_bind_count
    → (bind_loop system n addr sfd_arr).0 ≡ take max_bind_count (sfd_arr ++ usable system n addr)
unfolding bind_loop bind_sock
bind_loop-usable system n [] sfd_arr le =
    sym (rw (append-nil sfd_arr) (take_whole max_bind_count sfd_arr le))
bind_loop-usable system n (ca ∷ rest) sfd_arr le = elim (Option-cases (system n).sock) [
  | inl e ↦ rw e (bind_loop-usable system (suc n) rest sfd_arr le)
  | inr (sfd, e) ↦
      let skip = bind_loop-usable system (suc n) rest sfd_arr le in
      elim (Bool-cases (ca.ai_family == af_inet6 && not (system n).v6only)) [
        | inl f ↦ rw (e, f) skip
        | inr f ↦ elim (Bool-cases (system n).bound) [
          | inr g ↦ rw (e, f, g) skip
          | inl g ↦ elim (Bool-cases (leb max_bind_count (length sfd_arr))) [
            | inl l ↦
                rw (e, f, g, l)
                  (sym (
                    take_exact max_bind_count sfd_arr (sfd ∷ usable system (suc n) rest)
                      (ground (arith, l))))
            | inr l ↦
                rw (e, f, g, l)
                  (rw (append_assoc sfd_arr (sfd ∷ []) (usable system (suc n) rest)) at (
                    bind_loop-usable system (suc n) rest (sfd_arr ++ (sfd ∷ []))
                      (rw (length-append sfd_arr (sfd ∷ [])) (ground (arith, l)))))
          ]
        ]
      ]
]

abbrev pub count : ℕ → List ℕ → ℕ
count fd [] = 0
count fd (x ∷ xs) = (if fd == x then 1 else 0) + count fd xs

pub count-append : (fd : ℕ) (xs ys : List ℕ) → count fd (xs ++ ys) ≡ count fd xs + count fd ys
count-append fd [] ys = omega arith
count-append fd (x ∷ xs) ys = omega (arith, count-append fd xs ys)

-- How often `fd` is opened, and how often it is closed.
abbrev pub opened : ℕ → List Call → ℕ
opened fd [] = 0
opened fd (opens x ∷ cs) = (if fd == x then 1 else 0) + opened fd cs
opened fd (_ ∷ cs) = opened fd cs

abbrev pub closed : ℕ → List Call → ℕ
closed fd [] = 0
closed fd (closes x ∷ cs) = (if fd == x then 1 else 0) + closed fd cs
closed fd (_ ∷ cs) = closed fd cs

-- How the calls change the number of open descriptors `fd`.
abbrev pub Balanced : ℕ → ℕ → List Call → ℕ → Type 0
Balanced fd before cs after = before + opened fd cs ≡ after + closed fd cs

pub bind_loop-Balanced :
    (fd : ℕ) (system : ℕ → Answers) (n : ℕ) (addr : List Addrinfo) (sfd_arr : List ℕ)
    → Balanced fd
        (count fd sfd_arr)
        (bind_loop system n addr sfd_arr).1
        (count fd (bind_loop system n addr sfd_arr).0)
unfolding bind_loop bind_sock
bind_loop-Balanced fd system n [] sfd_arr = refl
bind_loop-Balanced fd system n (ca ∷ rest) sfd_arr = elim (Option-cases (system n).sock) [
  | inl e ↦ rw e (bind_loop-Balanced fd system (suc n) rest sfd_arr)
  | inr (sfd, e) ↦
      let skip = bind_loop-Balanced fd system (suc n) rest sfd_arr in
      let keep = bind_loop-Balanced fd system (suc n) rest (sfd_arr ++ (sfd ∷ [])) in
      elim (Bool-cases (ca.ai_family == af_inet6 && not (system n).v6only)) [
        | inl f ↦ rw (e, f) (omega (arith, skip))
        | inr f ↦ elim (Bool-cases (system n).bound) [
          | inr g ↦ rw (e, f, g) (omega (arith, skip))
          | inl g ↦ elim (Bool-cases (leb max_bind_count (length sfd_arr))) [
            | inl l ↦ rw (e, f, g, l) (omega arith)
            | inr l ↦ rw (e, f, g, l) (omega (arith, keep, count-append fd sfd_arr (sfd ∷ [])))
          ]
        ]
      ]
]

opened-append : (fd : ℕ) (cs ds : List Call) → opened fd (cs ++ ds) ≡ opened fd cs + opened fd ds
opened-append fd [] ds = omega arith
opened-append fd (opens x ∷ cs) ds = omega (arith, opened-append fd cs ds)
opened-append fd (closes x ∷ cs) ds = opened-append fd cs ds
opened-append fd (shuts_down x ∷ cs) ds = opened-append fd cs ds
opened-append fd (frees x ∷ cs) ds = opened-append fd cs ds
opened-append fd (starts x ∷ cs) ds = opened-append fd cs ds
opened-append fd (joins ∷ cs) ds = opened-append fd cs ds

closed-append : (fd : ℕ) (cs ds : List Call) → closed fd (cs ++ ds) ≡ closed fd cs + closed fd ds
closed-append fd [] ds = omega arith
closed-append fd (opens x ∷ cs) ds = closed-append fd cs ds
closed-append fd (closes x ∷ cs) ds = omega (arith, closed-append fd cs ds)
closed-append fd (shuts_down x ∷ cs) ds = closed-append fd cs ds
closed-append fd (frees x ∷ cs) ds = closed-append fd cs ds
closed-append fd (starts x ∷ cs) ds = closed-append fd cs ds
closed-append fd (joins ∷ cs) ds = closed-append fd cs ds

pub Balanced-append :
    (fd a b c : ℕ) (cs ds : List Call)
    → Balanced fd a cs b
    → Balanced fd b ds c
    → Balanced fd a (cs ++ ds) c
Balanced-append fd a b c cs ds h k =
    rw (opened-append fd cs ds, closed-append fd cs ds) (omega (arith, h, k))

pub close_all-Balanced : (fd : ℕ) (xs : List ℕ) → Balanced fd (count fd xs) (close_all xs) 0
unfolding close_all
close_all-Balanced fd [] = refl
close_all-Balanced fd (x ∷ xs) = omega (arith, close_all-Balanced fd xs)

pub shutdown_all-Balanced : (fd n : ℕ) (xs : List ℕ) → Balanced fd n (shutdown_all xs) n
unfolding shutdown_all
shutdown_all-Balanced fd n [] = refl
shutdown_all-Balanced fd n (x ∷ xs) = shutdown_all-Balanced fd n xs
