-- ===== src/PollServer/Clients.antt =====
-- One client of the server of tcpPrintServer_poll, from its place in the array on: the calls that
-- concern it.
pub mod Places
pub mod Newcomers
pub mod Service
use csockets.Base.{
  ℕ, zero, suc, ◌≡◌, refl, ap, inl, inr, Bool, true, false, none, some, List, [], ◌∷◌, ◌++◌, ◌==◌,
  if◌then◌else◌, Bool-cases, ◌||◌,
}
use csockets.PollServer.Visits.{gone, visit}
use csockets.PollServer.{
  Fd, Call, closes, writes, pollerr, Polled, poll_failed, timed_out, ready, Round,
}

abbrev pub is_fd : ℕ → Fd → Bool
is_fd fd none = false
is_fd fd (some x) = x == fd

abbrev pub concerns : ℕ → Call → Bool
concerns fd (closes x) = is_fd fd x
concerns fd (writes x bytes) = is_fd fd x

-- The calls that concern a descriptor, in their order.
abbrev pub about : ℕ → List Call → List Call
about fd [] = []
about fd (c ∷ cs) = let rest = about fd cs in if concerns fd c then c ∷ rest else rest

-- No place, or the place `k` and no other, has the descriptor.
abbrev pub Absent : ℕ → List Fd → Type 0
Absent fd [] = Unit {0}
Absent fd (x ∷ xs) = (is_fd fd x ≡ false) × Absent fd xs

abbrev pub StandsAt : ℕ → ℕ → List Fd → Type 0
StandsAt fd k [] = ⊥
StandsAt fd zero (x ∷ xs) = (x ≡ some fd) × Absent fd xs
StandsAt fd (suc k) (x ∷ xs) = (is_fd fd x ≡ false) × StandsAt fd k xs

-- What poll(2) reports for the place `k`, 0 beyond its list.
abbrev pub reported : List ℕ → ℕ → ℕ
reported [] k = 0
reported (r ∷ rs) zero = r
reported (r ∷ rs) (suc k) = reported rs k

-- What becomes of one client: each time its bytes are read they are sent back to it; it is closed, and
-- not heard of again, once it is gone; a timeout closes it and keeps its place; and an error of poll(2)
-- or of the listener ends the process.
abbrev pub conversation_in : ℕ → ℕ → Round → Polled → List Call → List Call
conversation_in fd k r poll_failed later = []
conversation_in fd k r timed_out later = closes (some fd) ∷ later
conversation_in fd k r (ready revents rs) later =
    (visit (some fd) (reported rs k) (r.input (suc k))).1
    ++ (if revents == pollerr || gone (reported rs k) (r.input (suc k)) then [] else later)

abbrev pub conversation : ℕ → ℕ → List Round → List Call
conversation fd k [] = []
conversation fd k (r ∷ rs) = conversation_in fd k r r.polled (conversation fd k rs)

-- accept(2) never gives this descriptor.
abbrev pub Fresh : ℕ → List Round → Type 0
Fresh fd [] = Unit {0}
Fresh fd (r ∷ rs) = (is_fd fd r.accepted ≡ false) × Fresh fd rs

pub about-append : (fd : ℕ) (xs ys : List Call) → about fd (xs ++ ys) ≡ about fd xs ++ about fd ys
about-append fd [] ys = refl
about-append fd (c ∷ xs) ys = elim (Bool-cases (concerns fd c)) [
  | inl e ↦ rw e (ap (◌∷◌ c) (about-append fd xs ys))
  | inr e ↦ rw e (about-append fd xs ys)
]
