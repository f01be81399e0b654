-- ===== src/PollServer/Clients/Service.antt =====
-- A client of the server of tcpPrintServer_poll over many rounds.
use csockets.Base.{
  ℕ, suc, ◌+◌, ◌≡◌, refl, sym, ap, ◌∙◌, Bool, true, false, Option, List, [], ◌∷◌, ◌++◌, ◌==◌,
  if◌then◌else◌, arith, ◌||◌,
}
use csockets.PollServer.Admission.{fds}
use csockets.PollServer.Visits.{visit_all, kick_all}
use csockets.PollServer.Refinement.{
  View, view, listen, round, then_next, all_rounds, rounds-all_rounds,
}
use csockets.PollServer.{
  Fd, Call, pollerr, Polled, poll_failed, timed_out, ready, Round, Server, rounds, Outcome, exits,
  goes,
}
use csockets.PollServer.Clients.{
  Absent, Fresh, StandsAt, about, about-append, conversation, conversation_in, is_fd,
}
use csockets.PollServer.Clients.Places.{
  Absent-kick_all, Absent-visit_all, StandsAt-kick_all, StandsAt-visit_all, StandsOrGone,
}
use csockets.PollServer.Clients.Newcomers.{Absent-admit, StandsAt-admit, about-listen}

abbrev no_calls : List Call
no_calls = []

both_nil : (b : Bool) → (if b then [] else []) ≡ no_calls
both_nil true = refl
both_nil false = refl

Absent-round :
    (fd : ℕ) (r : Round) (p : Polled) (xs : List Fd) (next : List Fd → View × List Call)
    → Absent fd xs
    → is_fd fd r.accepted ≡ false
    → ((ys : List Fd) → Absent fd ys → about fd (next ys).1 ≡ [])
    → about fd (then_next (round r p xs) next).1 ≡ []
Absent-round fd r poll_failed xs next h e later = refl
Absent-round fd r timed_out xs next h e later =
    about-append fd (kick_all xs) (next xs).1 ∙ rw (Absent-kick_all fd xs h) (later xs h)
Absent-round fd r (ready revents rs) xs next h e later =
    let (silent, h') = Absent-visit_all r.input fd 1 rs xs h in
    about-listen fd (Absent fd) (λ x ys. Absent-admit fd x ys) revents r.accepted _ _ next [] e h'
      later
    ∙ rw silent (both_nil (revents == pollerr))

Absent-all_rounds :
    (fd : ℕ) (rs : List Round) (xs : List Fd)
    → Absent fd xs
    → Fresh fd rs
    → about fd (all_rounds rs xs).1 ≡ []
Absent-all_rounds fd [] xs h fresh = refl
Absent-all_rounds fd (r ∷ rs) xs h (e, fresh) =
    Absent-round fd r r.polled xs (all_rounds rs) h e (λ ys a. Absent-all_rounds fd rs ys a fresh)

StandsAt-listen :
    (fd k : ℕ) (revents : ℕ) (accepted : Option ℕ) (p : List Fd × List Call) (b : Bool)
    (next : List Fd → View × List Call) (r said : List Call)
    → is_fd fd accepted ≡ false
    → StandsOrGone b fd k p.0
    → about fd p.1 ≡ said
    → ((ys : List Fd) → Absent fd ys → about fd (next ys).1 ≡ [])
    → ((ys : List Fd) → StandsAt fd k ys → about fd (next ys).1 ≡ r)
    → about fd (then_next (listen revents accepted p) next).1
      ≡ said ++ (if revents == pollerr || b then [] else r)
StandsAt-listen fd k revents accepted (xs, calls) true next r said e h s gone_later later =
    about-listen fd (Absent fd) (λ x ys. Absent-admit fd x ys) revents accepted xs calls next [] e h
      gone_later
    ∙ rw s (ap (λ l. said ++ l) (same (revents == pollerr)))
  where
    same : (c : Bool) → (if c then no_calls else []) ≡ (if c || true then [] else r)
    same true = refl
    same false = refl
StandsAt-listen fd k revents accepted (xs, calls) false next r said e h s gone_later later =
    about-listen fd (StandsAt fd k) (λ x ys. StandsAt-admit fd k x ys) revents accepted xs calls
      next r e h later
    ∙ rw s (ap (λ l. said ++ l) (same (revents == pollerr)))
  where
    same : (c : Bool) → (if c then no_calls else r) ≡ (if c || false then [] else r)
    same true = refl
    same false = refl

StandsAt-round :
    (fd k : ℕ) (r : Round) (p : Polled) (xs : List Fd) (next : List Fd → View × List Call)
    (rest : List Call)
    → StandsAt fd k xs
    → is_fd fd r.accepted ≡ false
    → ((ys : List Fd) → Absent fd ys → about fd (next ys).1 ≡ [])
    → ((ys : List Fd) → StandsAt fd k ys → about fd (next ys).1 ≡ rest)
    → about fd (then_next (round r p xs) next).1 ≡ conversation_in fd k r p rest
StandsAt-round fd k r poll_failed xs next rest h e gone_later later = refl
StandsAt-round fd k r timed_out xs next rest h e gone_later later =
    about-append fd (kick_all xs) (next xs).1 ∙ rw (StandsAt-kick_all fd k xs h, later xs h) refl
StandsAt-round fd k r (ready revents rs) xs next rest h e gone_later later =
    let (said, h') = StandsAt-visit_all r.input fd k 1 rs xs h in
    let index : 1 + k ≡ suc k = omega arith in
    StandsAt-listen fd k revents r.accepted (visit_all r.input 1 rs xs) _ next rest _ e
      (rw index at h') (rw index at said) gone_later later

StandsAt-all_rounds :
    (fd k : ℕ) (rs : List Round) (xs : List Fd)
    → StandsAt fd k xs
    → Fresh fd rs
    → about fd (all_rounds rs xs).1 ≡ conversation fd k rs
StandsAt-all_rounds fd k [] xs h fresh = refl
StandsAt-all_rounds fd k (r ∷ rs) xs h (e, fresh) =
    StandsAt-round fd k r r.polled xs (all_rounds rs) (conversation fd k rs) h e
      (λ ys a. Absent-all_rounds fd rs ys a fresh) (λ ys a. StandsAt-all_rounds fd k rs ys a fresh)

view-calls : (o : Outcome × List Call) → (view o).1 ≡ o.1
view-calls (exits code, calls) = refl
view-calls (goes s, calls) = refl

-- A client that stands at one place of the array, and whose descriptor accept(2) does not give again:
-- whatever the other clients do, the calls of write(2) and close(2) that concern it are those of its
-- `conversation`, in this order. As long as the process runs, all that is read from it is sent back to
-- it, and it is closed as soon as it is gone, and not again; but before that each timeout closes it,
-- and it keeps its place.
pub rounds-conversation :
    (fd k : ℕ) (rs : List Round) (s : Server)
    → StandsAt fd k (fds s.clients)
    → Fresh fd rs
    → about fd (rounds rs s).1 ≡ conversation fd k rs
rounds-conversation fd k rs s h fresh =
    ap (about fd) (sym (view-calls (rounds rs s)) ∙ ap (λ v. v.1) (rounds-all_rounds rs s))
    ∙ StandsAt-all_rounds fd k rs (fds s.clients) h fresh
