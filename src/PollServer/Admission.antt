-- ===== src/PollServer/Admission.antt =====
-- Who the server of tcpPrintServer_poll holds: the array of descriptors, without its flags.
use csockets.Base.{
  ℕ, suc, ◌≡◌, refl, inl, inr, true, false, Option, none, some, List, [], ◌∷◌, ◌==◌, arith,
  Option-cases, map,
}
use csockets.PollServer.Conservation.{free_spot-ge}
use csockets.PollServer.{
  Fd, Pollfd, Call, closes, writes, free_spot, set_client, place_client, accept_client, fullmsg,
}

abbrev pub fds : List Pollfd → List Fd
fds ps = map (λ p. p.fd) ps

abbrev pub cons_to : Fd → Option (List Fd) → Option (List Fd)
cons_to x none = none
cons_to x (some xs) = some (x ∷ xs)

-- The first place that is free is taken; nothing where there is none.
abbrev pub admit : ℕ → List Fd → Option (List Fd)
admit fd [] = none
admit fd (none ∷ xs) = some (some fd ∷ xs)
admit fd (some x ∷ xs) = cons_to (some x) (admit fd xs)

-- What became of a client that was accepted.
abbrev pub admitted : ℕ → List Fd → Option (List Fd) → List Fd × List Call
admitted fd xs none = (xs, writes (some fd) fullmsg ∷ closes (some fd) ∷ [])
admitted fd xs (some ys) = (ys, [])

abbrev pub fds_of : List Pollfd × List Call → List Fd × List Call
fds_of (ps, calls) = (fds ps, calls)

full : (fd n : ℕ) (ps : List Pollfd) → free_spot n ps ≡ none → admit fd (fds ps) ≡ none
unfolding free_spot
full fd n [] h = refl
full fd n (p ∷ ps) h = elim (Option-cases p.fd) [
  | inl e ↦ let t : some n ≡ none = rw e at h in ground arith
  | inr (y, e) ↦
      let t : free_spot (suc n) ps ≡ none = rw e at h in rw (e, full fd (suc n) ps t) refl
]

vacancy :
    (fd n spot : ℕ) (ps : List Pollfd)
    → free_spot n ps ≡ some spot
    → admit fd (fds ps) ≡ some (fds (set_client fd spot n ps))
unfolding free_spot set_client
vacancy fd n spot [] h = ground arith
vacancy fd n spot (p ∷ ps) h = elim (Option-cases p.fd) [
  | inl e ↦
      let t : some n ≡ some spot = rw e at h in
      let here : (n == spot) ≡ true = ground arith in rw (e, here) refl
  | inr (y, e) ↦
      let t : free_spot (suc n) ps ≡ some spot = rw e at h in
      let le = free_spot-ge (suc n) spot ps t in
      let there : (n == spot) ≡ false = ground arith in
      rw (there, e, vacancy fd (suc n) spot ps t) refl
]

-- An accepted client takes the first free place of the array; where there is none it is told that
-- the server is full, and closed.
pub accept_client-admit :
    (fd : ℕ) (ps : List Pollfd)
    → fds_of (accept_client (some fd) ps) ≡ admitted fd (fds ps) (admit fd (fds ps))
unfolding accept_client place_client
accept_client-admit fd ps = elim (Option-cases (free_spot 1 ps)) [
  | inl e ↦ rw (e, full fd 1 ps e) refl
  | inr (spot, e) ↦ rw (e, vacancy fd 1 spot ps e) refl
]
