-- ===== src/PollServer/Visits.antt =====
-- What a turn of the server of tcpPrintServer_poll does to its clients: the loop behind poll(2) and
-- the one behind a timeout, on the array of descriptors without its flags.
use csockets.Base.{
  ℕ, suc, ◌≡◌, refl, ap, ◌∙◌, inl, inr, Bool, true, false, Option, none, some, List, [], ◌∷◌, ◌++◌,
  if◌then◌else◌, Bool-cases, Option-cases, ◌||◌, ◌&&◌,
}
use csockets.PollServer.Admission.{fds, fds_of}
use csockets.PollServer.{
  Fd, Pollfd, Call, closes, writes, has_flag, pollin, pollerr, set_revents, clienthandle,
  drop_on_error, serve, serve_loop, receive, kick,
}

abbrev pub unread : Option (List ℕ) → Bool
unread none = true
unread (some bytes) = false

-- poll(2) or read(2) reported an error or the end of the stream.
abbrev pub gone : ℕ → Option (List ℕ) → Bool
gone revents input = has_flag pollerr revents || (has_flag pollin revents && unread input)

-- What a client is sent: the bytes that were read from it.
abbrev pub echoed : Fd → ℕ → Option (List ℕ) → List Call
echoed fd revents none = []
echoed fd revents (some bytes) = if has_flag pollin revents then writes fd bytes ∷ [] else []

-- A place of the array, and the calls, in a turn.
abbrev pub visit : Fd → ℕ → Option (List ℕ) → Fd × List Call
visit fd revents input = (
  if gone revents input then none else fd,
  echoed fd revents input ++ (if gone revents input then closes fd ∷ [] else []),
)

abbrev pub beside : Fd × List Call → List Fd × List Call → List Fd × List Call
beside (fd, calls) (xs, later) = (fd ∷ xs, calls ++ later)

-- All places, where poll(2) reports `rs` and nothing beyond them.
abbrev pub visit_all : (ℕ → Option (List ℕ)) → ℕ → List ℕ → List Fd → List Fd × List Call
visit_all input n rs [] = ([], [])
visit_all input n [] (fd ∷ xs) = beside (visit fd 0 (input n)) (visit_all input (suc n) [] xs)
visit_all input n (r ∷ rs) (fd ∷ xs) = beside (visit fd r (input n)) (visit_all input (suc n) rs xs)

pollerr_set : has_flag pollerr pollerr ≡ true
unfolding has_flag
pollerr_set = refl

serve-visit :
    (input : Option (List ℕ)) (p : Pollfd)
    → ((serve input p).0.fd, (serve input p).1) ≡ visit p.fd p.revents input
unfolding serve clienthandle drop_on_error set_revents
serve-visit none p = elim (Bool-cases (has_flag pollin p.revents)) [
  | inl e ↦ elim (Bool-cases (has_flag pollerr p.revents)) [
    | inl f ↦ rw (e, f, pollerr_set) refl
    | inr f ↦ rw (e, f, pollerr_set) refl
  ]
  | inr e ↦ elim (Bool-cases (has_flag pollerr p.revents)) [
    | inl f ↦ rw (e, f) refl
    | inr f ↦ rw (e, f) refl
  ]
]
serve-visit (some bytes) p = elim (Bool-cases (has_flag pollin p.revents)) [
  | inl e ↦ elim (Bool-cases (has_flag pollerr p.revents)) [
    | inl f ↦ rw (e, f) refl
    | inr f ↦ rw (e, f) refl
  ]
  | inr e ↦ elim (Bool-cases (has_flag pollerr p.revents)) [
    | inl f ↦ rw (e, f) refl
    | inr f ↦ rw (e, f) refl
  ]
]

serve_loop_cons :
    (input : ℕ → Option (List ℕ)) (n : ℕ) (p : Pollfd) (ps : List Pollfd) (xs : List Fd × List Call)
    → fds_of (serve_loop input (suc n) ps) ≡ xs
    → fds_of (serve_loop input n (p ∷ ps)) ≡ beside (visit p.fd p.revents (input n)) xs
unfolding serve_loop
serve_loop_cons input n p ps xs e =
    ap (λ v. beside v (fds_of (serve_loop input (suc n) ps))) (serve-visit (input n) p)
    ∙ ap (beside (visit p.fd p.revents (input n))) e

-- The loop over the clients sends each back what it sent, and closes and forgets those, and only
-- those, for whom poll(2) reported an error or read(2) failed or met the end.
pub serve_loop-visit_all :
    (input : ℕ → Option (List ℕ)) (n : ℕ) (rs : List ℕ) (ps : List Pollfd)
    → fds_of (serve_loop input n (receive rs ps)) ≡ visit_all input n rs (fds ps)
unfolding receive set_revents serve_loop
serve_loop-visit_all input n [] [] = refl
serve_loop-visit_all input n (r ∷ rs) [] = refl
serve_loop-visit_all input n [] (p ∷ ps) =
    serve_loop_cons input n (set_revents 0 p) (receive [] ps) (visit_all input (suc n) [] (fds ps))
      (serve_loop-visit_all input (suc n) [] ps)
serve_loop-visit_all input n (r ∷ rs) (p ∷ ps) =
    serve_loop_cons input n (set_revents r p) (receive rs ps) (visit_all input (suc n) rs (fds ps))
      (serve_loop-visit_all input (suc n) rs ps)

-- Every client is closed.
abbrev pub kick_all : List Fd → List Call
kick_all [] = []
kick_all (none ∷ xs) = kick_all xs
kick_all (some fd ∷ xs) = closes (some fd) ∷ kick_all xs

-- poll(2) with no descriptor in time closes every client and leaves its place as it is.
pub kick-kick_all : (ps : List Pollfd) → kick (receive [] ps) ≡ kick_all (fds ps)
unfolding kick receive set_revents
kick-kick_all [] = refl
kick-kick_all (p ∷ ps) = elim (Option-cases p.fd) [
  | inl e ↦ rw e (kick-kick_all ps)
  | inr (fd, e) ↦ rw e (ap (◌∷◌ (closes (some fd))) (kick-kick_all ps))
]

pub fds-receive : (rs : List ℕ) (ps : List Pollfd) → fds (receive rs ps) ≡ fds ps
unfolding receive set_revents serve_loop
fds-receive [] [] = refl
fds-receive (r ∷ rs) [] = refl
fds-receive [] (p ∷ ps) = ap (◌∷◌ p.fd) (fds-receive [] ps)
fds-receive (r ∷ rs) (p ∷ ps) = ap (◌∷◌ p.fd) (fds-receive rs ps)
