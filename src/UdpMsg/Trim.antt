-- ===== src/UdpMsg/Trim.antt =====
-- The trimming loop of `server` in udpmsg/main.old.c.
use mathlib.Core.List.{append_assoc}
use csockets.Base.{
  ℕ, zero, suc, ◌+◌, ◌≡◌, ◌≢◌, refl, sym, ap, ◌∙◌, false, none, some, List, [], ◌∷◌, ◌++◌, ◌==◌,
  length, arith, replicate, get_elem?, set, length-replicate, length-append,
}
use csockets.UdpMsg.{newline, while_newline, trim_loop}

get_elem?-append :
    (xs ys : List ℕ) (y n : ℕ) → n ≡ length xs → get_elem? (xs ++ (y ∷ ys)) n ≡ some y
get_elem?-append [] ys y zero e = refl
get_elem?-append [] ys y (suc n) e = absurd (omega arith)
get_elem?-append (x ∷ xs) ys y zero e = absurd (omega arith)
get_elem?-append (x ∷ xs) ys y (suc n) e = get_elem?-append xs ys y n (omega arith)

pub set-append :
    (xs ys : List ℕ) (y v n : ℕ) → n ≡ length xs → set (xs ++ (y ∷ ys)) n v ≡ xs ++ (v ∷ ys)
set-append [] ys y v zero e = refl
set-append [] ys y v (suc n) e = absurd (omega arith)
set-append (x ∷ xs) ys y v zero e = absurd (omega arith)
set-append (x ∷ xs) ys y v (suc n) e = ap (◌∷◌ x) (set-append xs ys y v n (omega arith))

pub replicate_last : (n x : ℕ) (ys : List ℕ) → replicate (suc n) x ++ ys ≡ replicate n x ++ (x ∷ ys)
replicate_last zero x ys = refl
replicate_last (suc n) x ys = ap (◌∷◌ x) (replicate_last n x ys)

-- One round at a newline that is not the first byte, and the round at another byte.
trim_newline :
    (m : ℕ) (xs ys : List ℕ)
    → suc m ≡ length xs
    → trim_loop (suc m) (xs ++ (newline ∷ ys)) ≡ trim_loop m (xs ++ (0 ∷ ys))
unfolding trim_loop while_newline
trim_newline m xs ys e =
    rw (get_elem?-append xs ys newline (suc m) e, set-append xs ys newline 0 (suc m) e) refl

trim_other :
    (n c : ℕ) (xs ys : List ℕ)
    → n ≡ length xs
    → c ≢ newline
    → trim_loop n (xs ++ (c ∷ ys)) ≡ some (xs ++ (c ∷ ys))
unfolding trim_loop while_newline
trim_other zero c xs ys e ne =
    let t : (c == newline) ≡ false = ground arith in rw (get_elem?-append xs ys c zero e, t) refl
trim_other (suc n) c xs ys e ne =
    let t : (c == newline) ≡ false = ground arith in rw (get_elem?-append xs ys c (suc n) e, t) refl

-- From the last byte of a text that ends with newlines but does not begin with them: each of these
-- newlines becomes a zero, and nothing else changes.
pub trim_loop-replicate :
    (n c : ℕ) (xs ys : List ℕ)
    → c ≢ newline
    → trim_loop (length xs + n) (xs ++ (c ∷ (replicate n newline ++ ys)))
      ≡ some (xs ++ (c ∷ (replicate n 0 ++ ys)))
trim_loop-replicate zero c xs ys ne = trim_other (length xs + 0) c xs ys (omega arith) ne
trim_loop-replicate (suc n) c xs ys ne =
    let front = xs ++ (c ∷ replicate n newline) in
    let size : length front ≡ suc (length xs + n) =
      omega (arith, length-append xs (c ∷ replicate n newline), length-replicate n newline) in
    let index : length xs + suc n ≡ suc (length xs + n) = omega arith in
    let split : front ++ (newline ∷ ys) ≡ xs ++ (c ∷ (replicate (suc n) newline ++ ys)) =
      append_assoc xs (c ∷ replicate n newline) (newline ∷ ys)
      ∙ ap (λ l. xs ++ (c ∷ l)) (sym (replicate_last n newline ys)) in
    rw (index, sym split)
      (trim_newline (length xs + n) front ys (sym size)
        ∙ ap (trim_loop (length xs + n)) (append_assoc xs (c ∷ replicate n newline) (0 ∷ ys))
        ∙ trim_loop-replicate n c xs (0 ∷ ys) ne
        ∙ ap (λ l. some (xs ++ (c ∷ l))) (sym (replicate_last n 0 ys)))

-- A text of newlines only is trimmed beyond its start.
pub trim_loop-newlines :
    (n : ℕ) (ys : List ℕ) → trim_loop n (replicate (suc n) newline ++ ys) ≡ none
unfolding trim_loop while_newline
trim_loop-newlines zero ys = refl
trim_loop-newlines (suc n) ys =
    ap (trim_loop (suc n)) (replicate_last (suc n) newline ys)
    ∙ trim_newline n (replicate (suc n) newline) ys (omega (arith, length-replicate n newline))
    ∙ trim_loop-newlines n (0 ∷ ys)
