-- ===== src/Log.antt =====
-- The log output of udpchat/src/util/print.h and of udpecho/main.c: what a call does with the mutex
-- and the output, and threads that log side by side.
pub mod Lines
pub mod Merging
pub mod Programs
pub mod Deadlock
mod Tests
use csockets.Base.{
  ℕ, ◌≡◌, Bool, true, false, Option, none, some, List, [], ◌∷◌, ◌++◌, ◌==◌, if◌then◌else◌, update,
}

abbrev pub Text : Type 0
Text = List ℕ

-- printf and fprintf(stderr, ...)
pub data Stream : Type 0 where
  stdout stderr : Stream

-- One call of a function of the library: on the mutex, or of printf(3) with the text that it writes.
pub data Action : Type 0 where
  lock unlock : Action
  emit : Stream → Text → Action

pub data Level : Type 0 where
  debug info warn error : Level

-- One log call with its formatted text.
pub record Message : Type 0 where
  pub level : Level
  pub text : Text

-- PRINT_DEBUG and its like.
abbrev pub Enabled : Type 0
Enabled = Level → Bool

pub stream : Level → Stream
stream debug = stdout
stream info = stdout
stream warn = stderr
stream error = stderr

-- "DEBUG: ", "INFO : ", "WARN : " and "ERROR: ".
pub prefix : Level → Text
prefix debug = b'D' ∷ b'E' ∷ b'B' ∷ b'U' ∷ b'G' ∷ 58 ∷ 32 ∷ []
prefix info = b'I' ∷ b'N' ∷ b'F' ∷ b'O' ∷ 32 ∷ 58 ∷ 32 ∷ []
prefix warn = b'W' ∷ b'A' ∷ b'R' ∷ b'N' ∷ 32 ∷ 58 ∷ 32 ∷ []
prefix error = b'E' ∷ b'R' ∷ b'R' ∷ b'O' ∷ b'R' ∷ 58 ∷ 32 ∷ []

abbrev pub end_of_line : Text
end_of_line = 10 ∷ []

abbrev pub Piece : Type 0
Piece = Stream × Text

pub pieces : Message → List Piece
pieces m =
    (stream m.level, prefix m.level) ∷ (stream m.level, m.text) ∷ (stream m.level, end_of_line) ∷ []

pub emits : List Piece → List Action → List Action
emits [] rest = rest
emits ((s, t) ∷ ps) rest = emit s t ∷ emits ps rest

-- pdebug, pinfo, pwarn and perror of print.h, and `rest` behind it: nothing where the level is off.
pub print : Enabled → Message → List Action → List Action
print enabled m rest = if enabled m.level then lock ∷ emits (pieces m) (unlock ∷ rest) else rest

-- The calls of one thread.
pub program : Enabled → List Message → List Action
program enabled [] = []
program enabled (m ∷ ms) = print enabled m (program enabled ms)

-- The log functions of udpecho/main.c.
pub data Printer : Type 0 where
  pdebug pwarn perr : Printer

-- ": DEBUG: ", ": WARN: " and ": ERROR: ".
pub heading : Printer → Text
heading pdebug = 58 ∷ 32 ∷ b'D' ∷ b'E' ∷ b'B' ∷ b'U' ∷ b'G' ∷ 58 ∷ 32 ∷ []
heading pwarn = 58 ∷ 32 ∷ b'W' ∷ b'A' ∷ b'R' ∷ b'N' ∷ 58 ∷ 32 ∷ []
heading perr = 58 ∷ 32 ∷ b'E' ∷ b'R' ∷ b'R' ∷ b'O' ∷ b'R' ∷ 58 ∷ 32 ∷ []

pub record EchoMessage : Type 0 where
  pub printer : Printer
  pub text : Text

pub echo_pieces : Text → EchoMessage → List Piece
echo_pieces progname m =
    (stderr, progname ++ heading m.printer) ∷ (stderr, m.text) ∷ (stderr, end_of_line) ∷ []

-- One call and `rest` behind it. The function returns with the mutex locked where it is switched off.
pub print_echo : Text → (Printer → Bool) → EchoMessage → List Action → List Action
print_echo progname enabled m rest =
    if enabled m.printer then lock ∷ emits (echo_pieces progname m) (unlock ∷ rest) else lock ∷ rest

pub program_echo : Text → (Printer → Bool) → List EchoMessage → List Action
program_echo progname enabled [] = []
program_echo progname enabled (m ∷ ms) =
    print_echo progname enabled m (program_echo progname enabled ms)

-- Threads by their numbers: who holds the mutex, what each still does, and the output.
pub record System : Type 0 where
  pub holder : Option ℕ
  pub todo : ℕ → List Action
  pub out : List Piece

-- One action of one thread. A mutex that is held, by any thread, is not locked.
pub data Step (s : System) : System → Type 0 where
  acquires :
      (i : ℕ) (rest : List Action)
      → s.todo i ≡ lock ∷ rest
      → s.holder ≡ none
      → Step s (record s { holder = some i; todo = update s.todo i rest })
  writes :
      (i : ℕ) (st : Stream) (t : Text) (rest : List Action)
      → s.todo i ≡ emit st t ∷ rest
      → Step s (record s { todo = update s.todo i rest; out = s.out ++ ((st, t) ∷ []) })
  releases :
      (i : ℕ) (rest : List Action)
      → s.todo i ≡ unlock ∷ rest
      → Step s (record s { holder = none; todo = update s.todo i rest })

pub data Reach (s : System) : System → Type 0 where
  start : Reach s s
  later : {t u : System} → Reach s t → Step t u → Reach s u
