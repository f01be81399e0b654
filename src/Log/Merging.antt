-- ===== src/Log/Merging.antt =====
-- That the output of threads which log side by side is one line after another.
use csockets.Base.{
  update, update_self, update_other, ℕ, ◌≡◌, refl, sym, ap, subst, ◌∙◌, inl, inr, true, false, Bool,
  Option, none, some, List, [], ◌∷◌, ◌++◌, ◌==◌, Bool-cases, ==_eq, All,
}
use csockets.Log.{
  Action, lock, unlock, emit, Stream, Text, Piece, System, Step, acquires, writes, releases, Reach,
  start, later, Enabled, Message, pieces, program, Printer, EchoMessage, echo_pieces, program_echo,
}
use csockets.Log.Programs.{
  script, script-ne-emit, script-ne-unlock, written, program-script, program_echo-script,
}
use csockets.Log.Lines.{
  Entries, output, Remains, Busy, Busy-acquires, Busy-writes, Busy-releases, of_thread_other,
}

module _ {M : Type 0} (text_of : M → List Piece) (messages : ℕ → List M) where
  Held : Option ℕ → (ℕ → List Action) → List Piece → Entries M → Type 0
  Held none todo out log =
      (out ≡ output text_of log) × ((j : ℕ) → Remains text_of messages log j (todo j))
  Held (some i) todo out log =
      Busy text_of messages log i (todo i) out
      × ((j : ℕ) → (i == j) ≡ false → Remains text_of messages log j (todo j))

  -- There is a log of what was written.
  Logged : Option ℕ → (ℕ → List Action) → List Piece → Type 0
  Logged holder todo out = (log : Entries M) × Held holder todo out log

  Logged-lock :
      (holder : Option ℕ) (todo : ℕ → List Action) (out : List Piece) (i : ℕ) (rest : List Action)
      → todo i ≡ lock ∷ rest
      → holder ≡ none
      → Logged holder todo out
      → Logged (some i) (update todo i rest) out
  unfolding Held Logged
  Logged-lock none todo out i rest e free (log, (shown, remains)) = (
    log,
    (
      Busy-acquires text_of messages log i (todo i) rest _ out e (update_self todo i rest) shown
          (remains i),
      λ j d. rw (update_other todo i rest j d) (remains j),
    ),
  )
  Logged-lock (some k) todo out i rest e free h = absurd (cc free)

  -- Only the thread with the mutex writes or gives it back.
  outside_emit :
      (log : Entries M) (i : ℕ) (todo rest : List Action) (st : Stream) (t : Text)
      → todo ≡ emit st t ∷ rest
      → Remains text_of messages log i todo
      → ⊥
  outside_emit log i todo rest st t e (ms, p, order) =
      script-ne-emit text_of ms st t rest (sym e ∙ p)

  outside_unlock :
      (log : Entries M) (i : ℕ) (todo rest : List Action)
      → todo ≡ unlock ∷ rest
      → Remains text_of messages log i todo
      → ⊥
  outside_unlock log i todo rest e (ms, p, order) = script-ne-unlock text_of ms rest (sym e ∙ p)

  Logged-emit :
      (holder : Option ℕ) (todo : ℕ → List Action) (out : List Piece) (i : ℕ) (st : Stream)
      (t : Text) (rest : List Action)
      → todo i ≡ emit st t ∷ rest
      → Logged holder todo out
      → Logged holder (update todo i rest) (out ++ ((st, t) ∷ []))
  unfolding Held Logged
  Logged-emit none todo out i st t rest e (log, (shown, remains)) =
      absurd (outside_emit log i (todo i) rest st t e (remains i))
  Logged-emit (some k) todo out i st t rest e (log, (busy, remains)) = elim (Bool-cases (k == i)) [
    | inr d ↦ absurd (outside_emit log i (todo i) rest st t e (remains i d))
    | inl d ↦
        let same : k ≡ i = ==_eq k i d in
        (
          log,
          (
            subst (λ l. Busy text_of messages log k l (out ++ ((st, t) ∷ [])))
                (sym (rw same (update_self todo i rest)))
                (Busy-writes text_of messages log k (todo k) rest out st t (rw same e) busy),
            λ j o. rw (update_other todo i rest j (rw same at o)) (remains j o),
          ),
        )
  ]

  Logged-unlock :
      (holder : Option ℕ) (todo : ℕ → List Action) (out : List Piece) (i : ℕ) (rest : List Action)
      → todo i ≡ unlock ∷ rest
      → Logged holder todo out
      → Logged none (update todo i rest) out
  unfolding Held Logged
  Logged-unlock none todo out i rest e (log, (shown, remains)) =
      absurd (outside_unlock log i (todo i) rest e (remains i))
  Logged-unlock (some k) todo out i rest e (log, (busy, remains)) = elim (Bool-cases (k == i)) [
    | inr d ↦ absurd (outside_unlock log i (todo i) rest e (remains i d))
    | inl d ↦
        let same : k ≡ i = ==_eq k i d in
        let (m, shown, own) =
          Busy-releases text_of messages log i (todo i) rest out e (rw same at busy) in
        (
          log ++ ((i, m) ∷ []),
          (
            shown,
            λ j. elim (Bool-cases (i == j)) [
              | inl o ↦ let here : i ≡ j = ==_eq i j o in rw (o, sym here) own
              | inr o ↦
                  let (ms, p, order) = remains j (rw same o) in
                  rw o (ms, p, order ∙ ap (λ l. l ++ ms) (sym (of_thread_other log i j m o)))
            ],
          ),
        )
  ]

  Step-Logged :
      {s t : System} → Step s t → Logged s.holder s.todo s.out → Logged t.holder t.todo t.out
  Step-Logged {s} (acquires i rest e free) h = Logged-lock s.holder s.todo s.out i rest e free h
  Step-Logged {s} (writes i st t rest e) h = Logged-emit s.holder s.todo s.out i st t rest e h
  Step-Logged {s} (releases i rest e) h = Logged-unlock s.holder s.todo s.out i rest e h

  Reach-Logged :
      {s t : System} → Logged s.holder s.todo s.out → Reach s t → Logged t.holder t.todo t.out
  Reach-Logged h start = h
  Reach-Logged h (later r st) = Step-Logged st (Reach-Logged h r)

  -- A log whose lines are the output, and which has each thread's messages in their order, up to those
  -- that the thread has still to write.
  abbrev pub Merged : System → Type 0
  Merged s =
      (log : Entries M) × (s.out ≡ output text_of log)
      × ((j : ℕ) → Remains text_of messages log j (s.todo j))

  free-Merged :
      (holder : Option ℕ) (todo : ℕ → List Action) (out : List Piece)
      → holder ≡ none
      → Logged holder todo out
      → Merged (record { holder = none; todo = todo; out = out })
  unfolding Held Logged
  free-Merged none todo out free (log, (shown, remains)) = (log, shown, remains)
  free-Merged (some k) todo out free h = absurd (cc free)

  Reach-script :
      (todo : ℕ → List Action) (s : System)
      → ((j : ℕ) → todo j ≡ script text_of (messages j))
      → Reach (record { holder = none; todo = todo; out = [] }) s
      → s.holder ≡ none
      → Merged s
  unfolding Held Logged
  Reach-script todo s scripts r free =
      free-Merged s.holder s.todo s.out free
        (Reach-Logged ([], (refl, λ j. (messages j, scripts j, refl))) r)

-- Any number of threads log side by side by the macros, in any order of their actions, with levels
-- switched on or off: whenever no thread holds the mutex, the output is whole lines, each with the
-- prefix, text and end of one message. Each thread's messages of a level that is on stand there once
-- and in their order, up to those that it has still to write.
pub Reach-Merged :
    (enabled : Enabled) (programs : ℕ → List Message) (s : System)
    → Reach (record { holder = none; todo = λ i. program enabled (programs i); out = [] }) s
    → s.holder ≡ none
    → Merged pieces (λ i. written enabled (programs i)) s
Reach-Merged enabled programs s r free =
    Reach-script pieces (λ i. written enabled (programs i)) (λ i. program enabled (programs i)) s
      (λ j. program-script enabled (programs j)) r free

-- Any number of threads of udpecho log side by side, and none calls a log function that is switched
-- off: whenever no thread holds the mutex, the output is whole lines, each with the program's name, the
-- heading, the text and the end of one message, and each thread's messages stand there once and in
-- their order, up to those that it has still to write.
pub Reach-Merged_echo :
    (progname : Text) (enabled : Printer → Bool) (programs : ℕ → List EchoMessage) (s : System)
    → ((i : ℕ) → All (λ m. enabled m.printer ≡ true) (programs i))
    → Reach
        (record { holder = none; todo = λ i. program_echo progname enabled (programs i); out = [] })
        s
    → s.holder ≡ none
    → Merged (echo_pieces progname) programs s
Reach-Merged_echo progname enabled programs s on r free =
    Reach-script (echo_pieces progname) programs (λ i. program_echo progname enabled (programs i)) s
      (λ j. program_echo-script progname enabled (programs j) (on j)) r free
