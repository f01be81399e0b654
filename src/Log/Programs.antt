-- ===== src/Log/Programs.antt =====
-- What threads that log do: a script takes the mutex, writes the pieces of a message and gives the
-- mutex back, for one message after the other.
use csockets.Base.{
  ◌≡◌, ◌≢◌, refl, inl, inr, Bool, true, List, [], ◌∷◌, Bool-cases, arith, All, if◌then◌else◌,
}
use csockets.Log.{
  Action, lock, unlock, emit, Enabled, Message, Stream, Text, Piece, pieces, emits, print, program,
  Printer, EchoMessage, echo_pieces, print_echo, program_echo,
}

pub emits-emit :
    (left : List Piece) (st : Stream) (t : Text) (rest tail : List Action)
    → emit st t ∷ rest ≡ emits left (unlock ∷ tail)
    → (left' : List Piece) × (left ≡ (st, t) ∷ left') × (rest ≡ emits left' (unlock ∷ tail))
unfolding emits
emits-emit [] st t rest tail h = absurd (ground (arith, h))
emits-emit ((st', t') ∷ ps) st t rest tail h = (ps, ground (arith, h), ground (arith, h))

pub emits-unlock :
    (left : List Piece) (rest tail : List Action)
    → unlock ∷ rest ≡ emits left (unlock ∷ tail)
    → (left ≡ []) × (rest ≡ tail)
unfolding emits
emits-unlock [] rest tail h = (refl, ground (arith, h))
emits-unlock ((st', t') ∷ ps) rest tail h = absurd (ground (arith, h))

module _ {M : Type 0} (text_of : M → List Piece) where
  abbrev pub script : List M → List Action
  script [] = []
  script (m ∷ ms) = lock ∷ emits (text_of m) (unlock ∷ script ms)

  pub script-lock :
      (ms : List M) (rest : List Action)
      → lock ∷ rest ≡ script ms
      → (m : M) × (ms' : List M) × (ms ≡ m ∷ ms') × (rest ≡ emits (text_of m) (unlock ∷ script ms'))
  script-lock [] rest h = absurd (cc h)
  script-lock (m ∷ ms) rest h = (m, ms, refl, ground (arith, h))

  pub script-ne-emit :
      (ms : List M) (st : Stream) (t : Text) (rest : List Action) → emit st t ∷ rest ≢ script ms
  script-ne-emit [] st t rest h = cc h
  script-ne-emit (m ∷ ms) st t rest h = ground (arith, h)

  pub script-ne-unlock : (ms : List M) (rest : List Action) → unlock ∷ rest ≢ script ms
  script-ne-unlock [] rest h = cc h
  script-ne-unlock (m ∷ ms) rest h = ground (arith, h)

-- The messages that the macros write: those of a level that is on.
abbrev pub written : Enabled → List Message → List Message
written enabled [] = []
written enabled (m ∷ ms) =
    let rest = written enabled ms in if enabled m.level then m ∷ rest else rest

pub program-script :
    (enabled : Enabled) (ms : List Message)
    → program enabled ms ≡ script pieces (written enabled ms)
unfolding program print
program-script enabled [] = refl
program-script enabled (m ∷ ms) = elim (Bool-cases (enabled m.level)) [
  | inl e ↦ rw (e, program-script enabled ms) refl
  | inr e ↦ rw (e, program-script enabled ms) refl
]

-- The log functions of udpecho, where those that are called are switched on.
pub program_echo-script :
    (progname : Text) (enabled : Printer → Bool) (ms : List EchoMessage)
    → All (λ m. enabled m.printer ≡ true) ms
    → program_echo progname enabled ms ≡ script (echo_pieces progname) ms
unfolding program_echo print_echo
program_echo-script progname enabled [] on = refl
program_echo-script progname enabled (m ∷ ms) (e, on) =
    rw (e, program_echo-script progname enabled ms on) refl
