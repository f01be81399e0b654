-- ===== src/PollServer/Clients/Places.antt =====
-- The places of the array, and the one of a client, in a round of the server of tcpPrintServer_poll.
use csockets.Base.{
  ℕ, zero, suc, ◌+◌, ◌≡◌, refl, sym, ap, ◌∙◌, Bool, true, false, Option, none, some, List, [], ◌∷◌,
  ◌++◌, if◌then◌else◌, arith, ==_refl, drop,
}
use mathlib.Core.List.{append-nil}
use csockets.PollServer.Visits.{gone, echoed, visit, visit_all, beside, kick_all}
use csockets.PollServer.{Fd, Call, closes, writes, pollin, has_flag}
use csockets.PollServer.Clients.{Absent, StandsAt, about, about-append, concerns, is_fd, reported}

-- A call that is made or not.
pub about-unless :
    (fd : ℕ) (c : Call) (b : Bool)
    → concerns fd c ≡ false
    → about fd (if b then c ∷ [] else []) ≡ []
about-unless fd c true e = rw e refl
about-unless fd c false e = refl

pub about-if :
    (fd : ℕ) (c : Call) (b : Bool)
    → concerns fd c ≡ true
    → about fd (if b then c ∷ [] else []) ≡ (if b then c ∷ [] else [])
about-if fd c true e = rw e refl
about-if fd c false e = refl

pub about-echoed :
    (fd : ℕ) (x : Fd) (revents : ℕ) (input : Option (List ℕ))
    → is_fd fd x ≡ false
    → about fd (echoed x revents input) ≡ []
about-echoed fd x revents none e = refl
about-echoed fd x revents (some bytes) e =
    about-unless fd (writes x bytes) (has_flag pollin revents) e

pub about-echoed_self :
    (fd revents : ℕ) (input : Option (List ℕ))
    → about fd (echoed (some fd) revents input) ≡ echoed (some fd) revents input
about-echoed_self fd revents none = refl
about-echoed_self fd revents (some bytes) =
    about-if fd (writes (some fd) bytes) (has_flag pollin revents) (==_refl fd)

-- A place that has another descriptor, or none, and the place of the client.
pub about-visit_other :
    (fd : ℕ) (x : Fd) (revents : ℕ) (input : Option (List ℕ))
    → is_fd fd x ≡ false
    → (about fd (visit x revents input).1 ≡ []) × (is_fd fd (visit x revents input).0 ≡ false)
about-visit_other fd x revents input e = (
  about-append fd (echoed x revents input) (if gone revents input then closes x ∷ [] else [])
      ∙ (ap (λ l. l ++ about fd (if gone revents input then closes x ∷ [] else []))
            (about-echoed fd x revents input e)
          ∙ about-unless fd (closes x) (gone revents input) e),
  kept (gone revents input),
)
  where
    kept : (b : Bool) → is_fd fd (if b then none else x) ≡ false
    kept true = refl
    kept false = e

pub about-visit_self :
    (fd revents : ℕ) (input : Option (List ℕ))
    → about fd (visit (some fd) revents input).1 ≡ (visit (some fd) revents input).1
about-visit_self fd revents input =
    about-append fd (echoed (some fd) revents input)
      (if gone revents input then closes (some fd) ∷ [] else [])
    ∙ (ap (λ l. l ++ about fd (if gone revents input then closes (some fd) ∷ [] else []))
          (about-echoed_self fd revents input)
        ∙ ap (λ l. echoed (some fd) revents input ++ l)
            (about-if fd (closes (some fd)) (gone revents input) (==_refl fd)))

-- The first place and the others.
pub visit_all-cons :
    (input : ℕ → Option (List ℕ)) (n : ℕ) (rs : List ℕ) (x : Fd) (xs : List Fd)
    → visit_all input n rs (x ∷ xs)
      ≡ beside (visit x (reported rs 0) (input n)) (visit_all input (suc n) (drop 1 rs) xs)
visit_all-cons input n [] x xs = refl
visit_all-cons input n (r ∷ rs) x xs = refl

pub reported-drop : (rs : List ℕ) (k : ℕ) → reported (drop 1 rs) k ≡ reported rs (suc k)
reported-drop [] k = refl
reported-drop (r ∷ rs) k = refl

pub about-beside :
    (fd : ℕ) (p : Fd × List Call) (q : List Fd × List Call)
    → about fd (beside p q).1 ≡ about fd p.1 ++ about fd q.1
about-beside fd (x, calls) (xs, later) = about-append fd calls later

-- Where the client stands nowhere.
pub Absent-visit_all :
    (input : ℕ → Option (List ℕ)) (fd n : ℕ) (rs : List ℕ) (xs : List Fd)
    → Absent fd xs
    → (about fd (visit_all input n rs xs).1 ≡ []) × Absent fd (visit_all input n rs xs).0
Absent-visit_all input fd n rs [] h = (refl, tt)
Absent-visit_all input fd n rs (x ∷ xs) (e, h) =
    let (calls, out) = about-visit_other fd x (reported rs 0) (input n) e in
    let (later, rest) = Absent-visit_all input fd (suc n) (drop 1 rs) xs h in
    rw (visit_all-cons input n rs x xs) (
      about-beside fd (visit x (reported rs 0) (input n)) (visit_all input (suc n) (drop 1 rs) xs)
          ∙ rw (calls, later) refl,
      (out, rest),
    )

-- Where it stands, unless it goes.
abbrev pub StandsOrGone : Bool → ℕ → ℕ → List Fd → Type 0
StandsOrGone true fd k xs = Absent fd xs
StandsOrGone false fd k xs = StandsAt fd k xs

pub StandsAt-here :
    (fd : ℕ) (b : Bool) (xs : List Fd)
    → Absent fd xs
    → StandsOrGone b fd zero ((if b then none else some fd) ∷ xs)
StandsAt-here fd true xs h = (refl, h)
StandsAt-here fd false xs h = (refl, h)

pub StandsAt-there :
    (fd k : ℕ) (b : Bool) (x : Fd) (xs : List Fd)
    → is_fd fd x ≡ false
    → StandsOrGone b fd k xs
    → StandsOrGone b fd (suc k) (x ∷ xs)
StandsAt-there fd k true x xs e h = (e, h)
StandsAt-there fd k false x xs e h = (e, h)

-- The client is served as if it was alone.
pub StandsAt-visit_all :
    (input : ℕ → Option (List ℕ)) (fd k n : ℕ) (rs : List ℕ) (xs : List Fd)
    → StandsAt fd k xs
    → (about fd (visit_all input n rs xs).1 ≡ (visit (some fd) (reported rs k) (input (n + k))).1)
      × StandsOrGone (gone (reported rs k) (input (n + k))) fd k (visit_all input n rs xs).0
StandsAt-visit_all input fd k n rs [] h = absurd h
StandsAt-visit_all input fd zero n rs (x ∷ xs) (e, h) =
    let (later, rest) = Absent-visit_all input fd (suc n) (drop 1 rs) xs h in
    let here : n + 0 ≡ n = omega arith in
    rw (visit_all-cons input n rs x xs, e, here)
      (
        about-beside fd (visit (some fd) (reported rs 0) (input n))
              (visit_all input (suc n) (drop 1 rs) xs)
            ∙ (rw later (append-nil _) ∙ about-visit_self fd (reported rs 0) (input n)),
        StandsAt-here fd (gone (reported rs 0) (input n)) _ rest,
      )
StandsAt-visit_all input fd (suc k) n rs (x ∷ xs) (e, h) =
    let (calls, out) = about-visit_other fd x (reported rs 0) (input n) e in
    let (later, rest) = StandsAt-visit_all input fd k (suc n) (drop 1 rs) xs h in
    let there : n + suc k ≡ suc n + k = omega arith in
    rw (visit_all-cons input n rs x xs, there, sym (reported-drop rs k))
      (
        about-beside fd (visit x (reported rs 0) (input n)) (visit_all input (suc n) (drop 1 rs) xs)
            ∙ rw (calls, later) refl,
        StandsAt-there fd k _ _ _ out rest,
      )

pub Absent-kick_all : (fd : ℕ) (xs : List Fd) → Absent fd xs → about fd (kick_all xs) ≡ []
Absent-kick_all fd [] h = refl
Absent-kick_all fd (none ∷ xs) (e, h) = Absent-kick_all fd xs h
Absent-kick_all fd (some x ∷ xs) (e, h) = rw e (Absent-kick_all fd xs h)

pub StandsAt-kick_all :
    (fd k : ℕ) (xs : List Fd) → StandsAt fd k xs → about fd (kick_all xs) ≡ closes (some fd) ∷ []
StandsAt-kick_all fd k [] h = absurd h
StandsAt-kick_all fd zero (x ∷ xs) (e, h) =
    rw (e, ==_refl fd) (ap (◌∷◌ (closes (some fd))) (Absent-kick_all fd xs h))
StandsAt-kick_all fd (suc k) (none ∷ xs) (e, h) = StandsAt-kick_all fd k xs h
StandsAt-kick_all fd (suc k) (some x ∷ xs) (e, h) = rw e (StandsAt-kick_all fd k xs h)
