-- ===== src/Log/Deadlock.antt =====
-- What a log function of udpecho/main.c that is switched off does to all threads.
use csockets.Base.{
  update, ℕ, ◌≡◌, refl, inl, inr, Bool, false, none, some, List, [], ◌∷◌, ◌==◌, Bool-cases,
}
use csockets.Log.{
  Action, lock, unlock, emit, Text, Printer, EchoMessage, print_echo, program_echo, System, Step,
  acquires, writes, releases,
}

-- What a program begins with, if anything.
abbrev Locks : List Action → Type 0
Locks [] = Unit {0}
Locks (lock ∷ rest) = Unit {0}
Locks (unlock ∷ rest) = ⊥
Locks (emit st t ∷ rest) = ⊥

module _ (progname : Text) (enabled : Printer → Bool) where
  program_echo-Locks : (ms : List EchoMessage) → Locks (program_echo progname enabled ms)
  unfolding program_echo print_echo
  program_echo-Locks [] = tt
  program_echo-Locks (m ∷ ms) = elim (Bool-cases (enabled m.printer)) [
    | inl e ↦ rw e tt
    | inr e ↦ rw e tt
  ]

  -- The state behind the call of thread `i`, where `rest` is what the thread does then.
  abbrev held_by : ℕ → (ℕ → List Action) → System
  held_by i todo = record { holder = some i; todo = todo; out = [] }

  no_action :
      (i : ℕ) (todo : ℕ → List Action) (t : System)
      → ((j : ℕ) → Locks (todo j))
      → Step (held_by i todo) t
      → ⊥
  no_action i todo t h (acquires j rest e free) = cc free
  no_action i todo t h (writes j st x rest e) = let l = h j in rw e at l
  no_action i todo t h (releases j rest e) = let l = h j in rw e at l

  -- A thread calls a log function that is switched off: it takes the mutex and goes on with it, so
  -- that from then on no thread can act, whatever each of them has still to log.
  pub off-deadlock :
      (programs : ℕ → List EchoMessage) (i : ℕ) (m : EchoMessage) (ms : List EchoMessage)
      → programs i ≡ m ∷ ms
      → enabled m.printer ≡ false
      → let todo : ℕ → List Action = λ j. program_echo progname enabled (programs j) in
        let s : System = record {
          holder = some i;
          todo = update todo i (program_echo progname enabled ms);
          out = [];
        } in
        Step (record { holder = none; todo = todo; out = [] }) s × ((t : System) → Step s t → ⊥)
  off-deadlock programs i m ms first off =
      let todo : ℕ → List Action = λ j. program_echo progname enabled (programs j) in
      (
        acquires i (program_echo progname enabled ms)
            (unfold program_echo print_echo in rw (first, off) refl) refl,
        λ t. no_action i (update todo i (program_echo progname enabled ms)) t (λ j.
            elim (Bool-cases (i == j)) [
              | inl e ↦ rw e (program_echo-Locks ms)
              | inr e ↦ rw e (program_echo-Locks (programs j))
            ]),
      )
