-- ===== src/PollServer/Refinement.antt =====
-- The server of tcpPrintServer_poll as one on places for clients: what it holds, reads and answers,
-- with no flags and no search in an array.
use csockets.Base.{
  ℕ, zero, suc, ◌≡◌, refl, ap, ◌∙◌, inl, inr, true, Option, none, some, List, [], ◌∷◌, ◌++◌, ◌==◌,
  if◌then◌else◌, Bool-cases, replicate,
}
use csockets.PollServer.Admission.{fds, fds_of, admit, admitted, accept_client-admit}
use csockets.PollServer.Visits.{
  visit_all, kick_all, serve_loop-visit_all, kick-kick_all, fds-receive,
}
use csockets.PollServer.{
  Fd, Pollfd, Call, pollin, pollerr, set_revents, serve_loop, receive, accept_client, Server,
  Polled, poll_failed, timed_out, ready, Round, Outcome, exits, goes, check_listener, turn, after,
  rounds, vacant, create_socket, socketloop,
}

-- The process exited with a code, or holds these clients, each at its place.
pub data View : Type 0 where
  exited : ℕ → View
  holds : List Fd → View

abbrev pub view : Outcome × List Call → View × List Call
view (exits code, calls) = (exited code, calls)
view (goes s, calls) = (holds (fds s.clients), calls)

-- A client that accept(2) gave, if any, is admitted.
abbrev pub admit_next : Option ℕ → List Fd → List Fd × List Call
admit_next none xs = (xs, [])
admit_next (some fd) xs = admitted fd xs (admit fd xs)

-- What the clients are once the listener reported `revents`.
abbrev pub listen : ℕ → Option ℕ → List Fd × List Call → View × List Call
listen revents accepted (xs, calls) =
    if revents == pollerr
    then (exited 2, calls)
    else if revents == pollin
    then (holds (admit_next accepted xs).0, calls ++ (admit_next accepted xs).1)
    else (holds xs, calls)

-- One round: an error ends the process, a timeout closes every client, and else each client is
-- visited and the listener is looked at.
abbrev pub round : Round → Polled → List Fd → View × List Call
round r poll_failed xs = (exited 2, [])
round r timed_out xs = (holds xs, kick_all xs)
round r (ready revents rs) xs = listen revents r.accepted (visit_all r.input 1 rs xs)

abbrev pub then_next : View × List Call → (List Fd → View × List Call) → View × List Call
then_next (exited code, calls) next = (exited code, calls)
then_next (holds xs, calls) next = let (v, later) = next xs in (v, calls ++ later)

abbrev pub all_rounds : List Round → List Fd → View × List Call
all_rounds [] xs = (holds xs, [])
all_rounds (r ∷ rs) xs = then_next (round r r.polled xs) (all_rounds rs)

accept_client-next :
    (accepted : Option ℕ) (ps : List Pollfd)
    → fds_of (accept_client accepted ps) ≡ admit_next accepted (fds ps)
unfolding accept_client
accept_client-next none ps = refl
accept_client-next (some fd) ps = accept_client-admit fd ps

check_listener-listen :
    (accepted : Option ℕ) (listener : Pollfd) (p : List Pollfd × List Call)
    → view (check_listener accepted listener p) ≡ listen listener.revents accepted (fds_of p)
unfolding check_listener
check_listener-listen accepted listener (ps, calls) =
    let e = accept_client-next accepted ps in
    elim (Bool-cases (listener.revents == pollerr)) [
      | inl bad ↦ rw bad refl
      | inr fine ↦ elim (Bool-cases (listener.revents == pollin)) [
        | inl knocks ↦ rw (fine, knocks) (ap (λ a. (holds a.0, calls ++ a.1)) e)
        | inr quiet ↦ rw (fine, quiet) refl
      ]
    ]

turn-round : (r : Round) (p : Polled) (s : Server) → view (turn r p s) ≡ round r p (fds s.clients)
unfolding turn set_revents
turn-round r poll_failed s = refl
turn-round r timed_out s = cc (ap holds (fds-receive [] s.clients), kick-kick_all s.clients)
turn-round r (ready revents rs) s =
    check_listener-listen r.accepted (set_revents revents s.listener)
      (serve_loop r.input 1 (receive rs s.clients))
    ∙ ap (listen revents r.accepted) (serve_loop-visit_all r.input 1 rs s.clients)

prepended :
    (o : Outcome × List Call) (calls : List Call)
    → view (o.0, calls ++ o.1) ≡ ((view o).0, calls ++ (view o).1)
prepended (exits code, later) calls = refl
prepended (goes s, later) calls = refl

after-then_next :
    (t : Outcome × List Call) (k : Server → Outcome × List Call) (next : List Fd → View × List Call)
    → ((s : Server) → view (k s) ≡ next (fds s.clients))
    → view (after t k) ≡ then_next (view t) next
unfolding after
after-then_next (exits code, calls) k next h = refl
after-then_next (goes s, calls) k next h =
    prepended (k s) calls ∙ ap (λ v. (v.0, calls ++ v.1)) (h s)

pub rounds-all_rounds :
    (rs : List Round) (s : Server) → view (rounds rs s) ≡ all_rounds rs (fds s.clients)
unfolding rounds
rounds-all_rounds [] s = refl
rounds-all_rounds (r ∷ rs) s =
    after-then_next (turn r r.polled s) (rounds rs) (all_rounds rs) (rounds-all_rounds rs)
    ∙ ap (λ v. then_next v (all_rounds rs)) (turn-round r r.polled s)

fds-vacant : (n : ℕ) → fds (vacant n) ≡ replicate n none
unfolding vacant
fds-vacant zero = refl
fds-vacant (suc n) = ap (◌∷◌ none) (fds-vacant n)

-- Whatever the system answers, a server whose socket could be set up does in each of its rounds what
-- `round` does to 19 places that are free at the start: it exits or holds the same clients at the same
-- places, with the same calls of write(2) and close(2) in the same order.
pub socketloop-all_rounds :
    (fd : ℕ) (rs : List Round)
    → view (socketloop (some fd) true true rs) ≡ all_rounds rs (replicate 19 none)
unfolding socketloop create_socket
socketloop-all_rounds fd rs = rounds-all_rounds rs _ ∙ ap (all_rounds rs) (fds-vacant 19)
