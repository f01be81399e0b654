-- ===== src/PollServer/Clients/Newcomers.antt =====
-- What the clients that the server of tcpPrintServer_poll accepts change for another one.
use csockets.Base.{
  ℕ, zero, suc, ◌≡◌, refl, sym, ap, ◌∙◌, inl, inr, false, Option, none, some, List, [], ◌∷◌, ◌++◌,
  ◌==◌, if◌then◌else◌, Bool-cases,
}
use mathlib.Core.List.{append-nil}
use csockets.PollServer.Admission.{admit, admitted, cons_to}
use csockets.PollServer.Refinement.{View, holds, admit_next, listen, then_next}
use csockets.PollServer.{Fd, Call, pollin, pollerr}
use csockets.PollServer.Clients.{Absent, StandsAt, about, about-append, is_fd}

-- What `P` says of the places once another client is admitted, or is not.
pub Kept : (List Fd → Type 0) → List Fd → Option (List Fd) → Type 0
Kept P xs none = P xs
Kept P xs (some ys) = P ys

pub Kept-cons :
    (P P' : List Fd → Type 0) (y : Fd) (xs : List Fd) (o : Option (List Fd))
    → ((ys : List Fd) → P ys → P' (y ∷ ys))
    → Kept P xs o
    → Kept P' (y ∷ xs) (cons_to y o)
unfolding Kept
Kept-cons P P' y xs none step h = step xs h
Kept-cons P P' y xs (some ys) step h = step ys h

pub Absent-admit :
    (fd x : ℕ) (xs : List Fd) → (x == fd) ≡ false → Absent fd xs → Kept (Absent fd) xs (admit x xs)
unfolding Kept
Absent-admit fd x [] e h = tt
Absent-admit fd x (none ∷ xs) e (f, h) = (e, h)
Absent-admit fd x (some y ∷ xs) e (f, h) =
    Kept-cons (Absent fd) (Absent fd) (some y) xs (admit x xs) (λ ys a. (f, a))
      (Absent-admit fd x xs e h)

pub StandsAt-admit :
    (fd k x : ℕ) (xs : List Fd)
    → (x == fd) ≡ false
    → StandsAt fd k xs
    → Kept (StandsAt fd k) xs (admit x xs)
unfolding Kept
StandsAt-admit fd k x [] e h = absurd h
StandsAt-admit fd zero x (none ∷ xs) e (f, h) = absurd (cc f)
StandsAt-admit fd zero x (some y ∷ xs) e (f, h) =
    Kept-cons (Absent fd) (StandsAt fd zero) (some y) xs (admit x xs) (λ ys a. (f, a))
      (Absent-admit fd x xs e h)
StandsAt-admit fd (suc k) x (none ∷ xs) e (f, h) = (e, h)
StandsAt-admit fd (suc k) x (some y ∷ xs) e (f, h) =
    Kept-cons (StandsAt fd k) (StandsAt fd (suc k)) (some y) xs (admit x xs) (λ ys a. (f, a))
      (StandsAt-admit fd k x xs e h)

-- A client that is accepted, or turned away, is another one.
module _ (fd : ℕ) (P : List Fd → Type 0)
    (kept : (x : ℕ) (xs : List Fd) → (x == fd) ≡ false → P xs → Kept P xs (admit x xs)) where
  pub admitted-Kept :
      (x : ℕ) (xs : List Fd) (o : Option (List Fd))
      → (x == fd) ≡ false
      → Kept P xs o
      → (about fd (admitted x xs o).1 ≡ []) × P (admitted x xs o).0
  unfolding Kept
  admitted-Kept x xs none e h = (rw e refl, h)
  admitted-Kept x xs (some ys) e h = (refl, h)

  pub admit_next-Kept :
      (accepted : Option ℕ) (xs : List Fd)
      → is_fd fd accepted ≡ false
      → P xs
      → (about fd (admit_next accepted xs).1 ≡ []) × P (admit_next accepted xs).0
  admit_next-Kept none xs e h = (refl, h)
  admit_next-Kept (some x) xs e h = admitted-Kept x xs (admit x xs) e (kept x xs e h)

  pub about-then_next :
      (xs : List Fd) (calls : List Call) (next : List Fd → View × List Call) (r : List Call)
      → about fd (next xs).1 ≡ r
      → about fd (then_next (holds xs, calls) next).1 ≡ about fd calls ++ r
  about-then_next xs calls next r e =
      about-append fd calls (next xs).1 ∙ ap (λ l. about fd calls ++ l) e

  -- A round in which poll(2) found something, and the rounds behind it.
  pub about-listen :
      (revents : ℕ) (accepted : Option ℕ) (xs : List Fd) (calls : List Call)
      (next : List Fd → View × List Call) (r : List Call)
      → is_fd fd accepted ≡ false
      → P xs
      → ((ys : List Fd) → P ys → about fd (next ys).1 ≡ r)
      → about fd (then_next (listen revents accepted (xs, calls)) next).1
        ≡ about fd calls ++ (if revents == pollerr then [] else r)
  about-listen revents accepted xs calls next r e h later =
      let (none_said, h') = admit_next-Kept accepted xs e h in
      elim (Bool-cases (revents == pollerr)) [
        | inl bad ↦ rw bad (sym (append-nil (about fd calls)))
        | inr fine ↦ elim (Bool-cases (revents == pollin)) [
          | inl knocks ↦
              rw (fine, knocks)
                (about-then_next (admit_next accepted xs).0 (calls ++ (admit_next accepted xs).1)
                    next r (later (admit_next accepted xs).0 h')
                  ∙ ap (λ l. l ++ r)
                      (about-append fd calls (admit_next accepted xs).1
                        ∙ (ap (λ l. about fd calls ++ l) none_said ∙ append-nil (about fd calls))))
          | inr quiet ↦ rw (fine, quiet) (about-then_next xs calls next r (later xs h))
        ]
      ]
