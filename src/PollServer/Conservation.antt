-- ===== src/PollServer/Conservation.antt =====
-- That the server of tcpPrintServer_poll loses no descriptor: each is in the array or closed once.
use csockets.Base.{
  ℕ, zero, suc, ◌+◌, ◌≤◌, ◌≡◌, refl, sym, ◌∙◌, inl, inr, true, false, Option, none, some, List, [],
  ◌∷◌, ◌++◌, ◌==◌, if◌then◌else◌, arith, Bool-cases, Option-cases, All,
}
use csockets.PollServer.{
  Fd, Pollfd, Call, closes, writes, has_flag, pollin, pollerr, set_revents, clienthandle,
  drop_on_error, serve, serve_loop, free_spot, set_client, place_client, accept_client, kick,
  receive, Server, Polled, poll_failed, timed_out, ready, Round, Outcome, exits, goes,
  check_listener, turn, rounds, after, vacant, socketloop, create_socket,
}

-- 1 where the descriptor is `fd`.
abbrev pub one : ℕ → Fd → ℕ
one fd none = 0
one fd (some x) = if fd == x then 1 else 0

-- How often `fd` stands in the array, and how often it is closed.
abbrev pub held : ℕ → List Pollfd → ℕ
held fd [] = 0
held fd (p ∷ ps) = one fd p.fd + held fd ps

abbrev pub closed : ℕ → List Call → ℕ
closed fd [] = 0
closed fd (closes x ∷ cs) = one fd x + closed fd cs
closed fd (writes x bytes ∷ cs) = closed fd cs

closed-append : (fd : ℕ) (cs ds : List Call) → closed fd (cs ++ ds) ≡ closed fd cs + closed fd ds
closed-append fd [] ds = ground arith
closed-append fd (closes x ∷ cs) ds = ground (arith, closed-append fd cs ds)
closed-append fd (writes x bytes ∷ cs) ds = closed-append fd cs ds

drop_on_error-held :
    (fd : ℕ) (p : Pollfd) (cs : List Call)
    → one fd (drop_on_error (p, cs)).0.fd + closed fd (drop_on_error (p, cs)).1
      ≡ one fd p.fd + closed fd cs
unfolding drop_on_error
drop_on_error-held fd p cs = elim (Bool-cases (has_flag pollerr p.revents)) [
  | inl e ↦ rw (e, closed-append fd cs (closes p.fd ∷ [])) (omega arith)
  | inr e ↦ rw e refl
]

-- A client that is served stands in the array or was closed.
serve-held :
    (fd : ℕ) (input : Option (List ℕ)) (p : Pollfd)
    → one fd (serve input p).0.fd + closed fd (serve input p).1 ≡ one fd p.fd
unfolding serve clienthandle set_revents
serve-held fd none p = elim (Bool-cases (has_flag pollin p.revents)) [
  | inl e ↦ rw e (drop_on_error-held fd (set_revents pollerr p) [] ∙ omega arith)
  | inr e ↦ rw e (drop_on_error-held fd p [] ∙ omega arith)
]
serve-held fd (some bytes) p = elim (Bool-cases (has_flag pollin p.revents)) [
  | inl e ↦ rw e (drop_on_error-held fd p (writes p.fd bytes ∷ []) ∙ omega arith)
  | inr e ↦ rw e (drop_on_error-held fd p [] ∙ omega arith)
]

serve_loop-held :
    (fd : ℕ) (input : ℕ → Option (List ℕ)) (n : ℕ) (ps : List Pollfd)
    → held fd (serve_loop input n ps).0 + closed fd (serve_loop input n ps).1 ≡ held fd ps
unfolding serve_loop
serve_loop-held fd input n [] = refl
serve_loop-held fd input n (p ∷ ps) =
    rw (closed-append fd (serve (input n) p).1 (serve_loop input (suc n) ps).1)
      (omega (arith, serve-held fd (input n) p, serve_loop-held fd input (suc n) ps))

receive-held : (fd : ℕ) (rs : List ℕ) (ps : List Pollfd) → held fd (receive rs ps) ≡ held fd ps
unfolding receive set_revents
receive-held fd rs [] = refl
receive-held fd [] (p ∷ ps) = rw (receive-held fd [] ps) refl
receive-held fd (r ∷ rs) (p ∷ ps) = rw (receive-held fd rs ps) refl

pub free_spot-ge : (n spot : ℕ) (ps : List Pollfd) → free_spot n ps ≡ some spot → n ≤ spot
unfolding free_spot
free_spot-ge n spot [] h = ground arith
free_spot-ge n spot (p ∷ ps) h = elim (Option-cases p.fd) [
  | inl e ↦ let t : some n ≡ some spot = rw e at h in ground arith
  | inr (y, e) ↦
      let t : free_spot (suc n) ps ≡ some spot = rw e at h in
      omega (arith, free_spot-ge (suc n) spot ps t)
]

set_client-held :
    (fd x spot n : ℕ) (ps : List Pollfd)
    → free_spot n ps ≡ some spot
    → held fd (set_client x spot n ps) ≡ one fd (some x) + held fd ps
unfolding set_client free_spot
set_client-held fd x spot n [] h = ground arith
set_client-held fd x spot n (p ∷ ps) h = elim (Option-cases p.fd) [
  | inl e ↦
      let t : some n ≡ some spot = rw e at h in
      let here : (n == spot) ≡ true = ground arith in rw (here, e) (omega arith)
  | inr (y, e) ↦
      let t : free_spot (suc n) ps ≡ some spot = rw e at h in
      let le = free_spot-ge (suc n) spot ps t in
      let there : (n == spot) ≡ false = ground arith in
      rw there (omega (arith, set_client-held fd x spot (suc n) ps t))
]

-- The descriptors that a listener with these revents accepts.
abbrev pub one_accepted : ℕ → ℕ → Option ℕ → ℕ
one_accepted fd revents accepted = if revents == pollin then one fd accepted else 0

place_client-held :
    (fd x : ℕ) (found : Option ℕ) (ps : List Pollfd)
    → free_spot 1 ps ≡ found
    → held fd (place_client x found ps).0 + closed fd (place_client x found ps).1
      ≡ held fd ps + one fd (some x)
unfolding place_client
place_client-held fd x none ps h = omega arith
place_client-held fd x (some spot) ps h = omega (arith, set_client-held fd x spot 1 ps h)

accept_client-held :
    (fd : ℕ) (accepted : Option ℕ) (ps : List Pollfd)
    → held fd (accept_client accepted ps).0 + closed fd (accept_client accepted ps).1
      ≡ held fd ps + one fd accepted
unfolding accept_client
accept_client-held fd none ps = omega arith
accept_client-held fd (some x) ps = place_client-held fd x (free_spot 1 ps) ps refl

kick-held : (fd : ℕ) (ps : List Pollfd) → closed fd (kick (receive [] ps)) ≡ held fd ps
unfolding kick receive set_revents
kick-held fd [] = refl
kick-held fd (p ∷ ps) = elim (Option-cases p.fd) [
  | inl e ↦ rw (e, kick-held fd ps) (omega arith)
  | inr (x, e) ↦ rw (e, kick-held fd ps) refl
]

-- In a turn where poll(2) finds a descriptor and the process goes on, a descriptor is held
-- afterwards or closed as often, together, as it was held before or is accepted: none is lost and
-- none is closed twice.
pub turn-held :
    (fd : ℕ) (r : Round) (revents : ℕ) (rs : List ℕ) (s next : Server)
    → (turn r (ready revents rs) s).0 ≡ goes next
    → held fd next.clients + closed fd (turn r (ready revents rs) s).1
      ≡ held fd s.clients + one_accepted fd revents r.accepted
unfolding turn check_listener set_revents
turn-held fd r revents rs s next h =
    let r1 = serve_loop r.input 1 (receive rs s.clients) in
    let served =
      serve_loop-held fd r.input 1 (receive rs s.clients) ∙ receive-held fd rs s.clients in
    elim (Bool-cases (revents == pollerr)) [
      | inl e ↦ let t = rw e at h in ground arith
      | inr e ↦ elim (Bool-cases (revents == pollin)) [
        | inl f ↦
            let t = rw (e, f) at h in
            let q : record {
              listener = set_revents revents s.listener;
              clients = (accept_client r.accepted r1.0).0;
            }
                ≡ next =
              ground (arith, t) in
            rw (e, f, sym q, closed-append fd r1.1 (accept_client r.accepted r1.0).1)
              (omega (arith, served, accept_client-held fd r.accepted r1.0))
        | inr f ↦
            let t = rw (e, f) at h in
            let q : record { listener = set_revents revents s.listener; clients = r1.0 } ≡ next =
              ground (arith, t) in
            rw (e, f, sym q) (omega (arith, served))
      ]
    ]

-- When poll(2) finds no descriptor in time, a descriptor is closed as often as clients held it,
-- and the array holds it as often as before: no place is given free.
pub turn_timed_out :
    (fd : ℕ) (r : Round) (s : Server)
    → held fd (receive [] s.clients) ≡ held fd s.clients
      × closed fd (turn r timed_out s).1 ≡ held fd s.clients
unfolding turn
turn_timed_out fd r s = (receive-held fd [] s.clients, kick-held fd s.clients)

-- No call of poll(2) finds nothing.
abbrev pub IsCalm : Polled → Type 0
IsCalm timed_out = ⊥
IsCalm _ = Unit {0}

-- How often `fd` is accepted.
abbrev pub one_of_round : ℕ → Polled → Option ℕ → ℕ
one_of_round fd (ready revents rs) accepted = one_accepted fd revents accepted
one_of_round fd _ accepted = 0

abbrev pub accepted_count : ℕ → List Round → ℕ
accepted_count fd [] = 0
accepted_count fd (r ∷ rs) = one_of_round fd r.polled r.accepted + accepted_count fd rs

calm_turn-held :
    (fd : ℕ) (r : Round) (p : Polled) (s next : Server)
    → IsCalm p
    → (turn r p s).0 ≡ goes next
    → held fd next.clients + closed fd (turn r p s).1
      ≡ held fd s.clients + one_of_round fd p r.accepted
unfolding turn
calm_turn-held fd r poll_failed s next calm h = ground (arith, h)
calm_turn-held fd r timed_out s next calm h = elim calm [ ]
calm_turn-held fd r (ready revents rs) s next calm h = turn-held fd r revents rs s next h

after-held :
    (fd n m : ℕ) (t : Outcome × List Call) (k : Server → Outcome × List Call) (s last : Server)
    → ((next : Server)
        → t.0 ≡ goes next
        → held fd next.clients + closed fd t.1 ≡ held fd s.clients + n)
    → ((next : Server)
        → (k next).0 ≡ goes last
        → held fd last.clients + closed fd (k next).1 ≡ held fd next.clients + m)
    → (after t k).0 ≡ goes last
    → held fd last.clients + closed fd (after t k).1 ≡ held fd s.clients + (n + m)
unfolding after
after-held fd n m (exits code, calls) k s last one two h = ground (arith, h)
after-held fd n m (goes next, calls) k s last one two h =
    rw (closed-append fd calls (k next).1) (omega (arith, one next refl, two next h))

rounds-held :
    (fd : ℕ) (rs : List Round) (s last : Server)
    → All (λ r. IsCalm r.polled) rs
    → (rounds rs s).0 ≡ goes last
    → held fd last.clients + closed fd (rounds rs s).1 ≡ held fd s.clients + accepted_count fd rs
unfolding rounds
rounds-held fd [] s last calm h = let q : s ≡ last = ground (arith, h) in rw q (omega arith)
rounds-held fd (r ∷ rs) s last calm h =
    after-held fd _ _ (turn r r.polled s) (rounds rs) s last
      (λ next. calm_turn-held fd r r.polled s next calm.0)
      (λ next. rounds-held fd rs next last calm.1) h

vacant-held : (fd n : ℕ) → held fd (vacant n) ≡ 0
unfolding vacant
vacant-held fd zero = refl
vacant-held fd (suc n) = omega (arith, vacant-held fd n)

-- From the start of the server, while no call of poll(2) runs out of time and the process does not
-- exit: every descriptor is held or was closed, together as often as it was accepted.
pub socketloop-held :
    (fd sock : ℕ) (rs : List Round) (last : Server)
    → All (λ r. IsCalm r.polled) rs
    → (socketloop (some sock) true true rs).0 ≡ goes last
    → held fd last.clients + closed fd (socketloop (some sock) true true rs).1
      ≡ accepted_count fd rs
unfolding socketloop create_socket
socketloop-held fd sock rs last calm h =
    rounds-held fd rs _ last calm h ∙ rw (vacant-held fd 19) (omega arith)
