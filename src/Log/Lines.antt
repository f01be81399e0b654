-- ===== src/Log/Lines.antt =====
-- That threads which log under one mutex never mix their lines.
use mathlib.Core.List.{append_assoc, append-nil}
use csockets.Base.{
  ℕ, ◌≡◌, refl, sym, ap, ◌∙◌, inl, inr, false, List, [], ◌∷◌, ◌++◌, ◌==◌, Bool-cases, ==_refl,
  if◌then◌else◌,
}
use csockets.Log.{Action, lock, unlock, emit, Stream, Text, Piece, emits}
use csockets.Log.Programs.{emits-emit, emits-unlock, script, script-lock}

-- A log: the messages in the order of the output, each with its thread.
abbrev pub Entries : Type 0 → Type 0
Entries M = List (ℕ × M)

-- Those of one thread.
abbrev pub of_thread : {M : Type 0} → ℕ → Entries M → List M
of_thread i [] = []
of_thread i ((j, m) ∷ log) = let rest = of_thread i log in if j == i then m ∷ rest else rest

-- The pieces of all, line by line.
abbrev pub output : {M : Type 0} → (M → List Piece) → Entries M → List Piece
output text_of [] = []
output text_of ((j, m) ∷ log) = text_of m ++ output text_of log

output_snoc :
    {M : Type 0} (text_of : M → List Piece) (log : Entries M) (i : ℕ) (m : M)
    → output text_of (log ++ ((i, m) ∷ [])) ≡ output text_of log ++ text_of m
output_snoc text_of [] i m = append-nil (text_of m)
output_snoc text_of ((j, n) ∷ log) i m =
    ap (λ l. text_of n ++ l) (output_snoc text_of log i m)
    ∙ sym (append_assoc (text_of n) (output text_of log) (text_of m))

of_thread_self :
    {M : Type 0} (log : Entries M) (i : ℕ) (m : M)
    → of_thread i (log ++ ((i, m) ∷ [])) ≡ of_thread i log ++ (m ∷ [])
of_thread_self [] i m = rw (==_refl i) refl
of_thread_self ((j, n) ∷ log) i m = elim (Bool-cases (j == i)) [
  | inl e ↦ rw e (ap (◌∷◌ n) (of_thread_self log i m))
  | inr e ↦ rw e (of_thread_self log i m)
]

pub of_thread_other :
    {M : Type 0} (log : Entries M) (i j : ℕ) (m : M)
    → (i == j) ≡ false
    → of_thread j (log ++ ((i, m) ∷ [])) ≡ of_thread j log
of_thread_other [] i j m e = rw e refl
of_thread_other ((k, n) ∷ log) i j m e = elim (Bool-cases (k == j)) [
  | inl d ↦ rw d (ap (◌∷◌ n) (of_thread_other log i j m e))
  | inr d ↦ rw d (of_thread_other log i j m e)
]

module _ {M : Type 0} (text_of : M → List Piece) (messages : ℕ → List M) where
  -- Thread `i` has still to write its messages behind those of the log.
  abbrev pub Remains : Entries M → ℕ → List Action → Type 0
  Remains log i todo =
      (rest : List M) × (todo ≡ script text_of rest) × (messages i ≡ of_thread i log ++ rest)

  -- The thread that holds the mutex is within a line, of which `left` is still to be written.
  pub record Busy (log : Entries M) (i : ℕ) (todo : List Action) (out : List Piece) : Type 0 where
    pub current : M
    pub done : List Piece
    pub left : List Piece
    pub rest : List M
    pub coming : todo ≡ emits left (unlock ∷ script text_of rest)
    pub shown : out ≡ output text_of log ++ done
    pub line : text_of current ≡ done ++ left
    pub order : messages i ≡ of_thread i log ++ (current ∷ rest)

  pub Busy-acquires :
      (log : Entries M) (i : ℕ) (l rest todo : List Action) (out : List Piece)
      → l ≡ lock ∷ rest
      → todo ≡ rest
      → out ≡ output text_of log
      → Remains log i l
      → Busy log i todo out
  Busy-acquires log i l rest todo out e now shown (ms, p, order) =
      let (m, ms', split, q) = script-lock text_of ms rest (sym e ∙ p) in
      record {
        current = m;
        done = [];
        left = text_of m;
        rest = ms';
        coming = now ∙ q;
        shown = shown ∙ sym (append-nil (output text_of log));
        line = refl;
        order = order ∙ ap (λ l. of_thread i log ++ l) split;
      }

  -- The thread within a line is the one that writes.
  pub Busy-writes :
      (log : Entries M) (i : ℕ) (l rest : List Action) (out : List Piece) (st : Stream) (t : Text)
      → l ≡ emit st t ∷ rest
      → Busy log i l out
      → Busy log i rest (out ++ ((st, t) ∷ []))
  Busy-writes log i l rest out st t e b =
      let (left, split, same) =
        emits-emit b.left st t rest (script text_of b.rest) (sym e ∙ b.coming) in
      record {
        current = b.current;
        done = b.done ++ ((st, t) ∷ []);
        left = left;
        rest = b.rest;
        coming = same;
        shown =
            ap (λ o. o ++ ((st, t) ∷ [])) b.shown
            ∙ append_assoc (output text_of log) b.done ((st, t) ∷ []);
        line =
            b.line ∙ (ap (λ l. b.done ++ l) split ∙ sym (append_assoc b.done ((st, t) ∷ []) left));
        order = b.order;
      }

  -- With its last piece written the line is put into the log.
  pub Busy-releases :
      (log : Entries M) (i : ℕ) (l rest : List Action) (out : List Piece)
      → l ≡ unlock ∷ rest
      → Busy log i l out
      → (m : M) × (out ≡ output text_of (log ++ ((i, m) ∷ [])))
        × Remains (log ++ ((i, m) ∷ [])) i rest
  Busy-releases log i l rest out e b =
      let (none_left, same) = emits-unlock b.left rest (script text_of b.rest) (sym e ∙ b.coming) in
      let whole : text_of b.current ≡ b.done = b.line ∙ rw none_left (append-nil b.done) in
      (
        b.current,
        b.shown
            ∙ (ap (λ l. output text_of log ++ l) (sym whole)
                ∙ sym (output_snoc text_of log i b.current)),
        (
          b.rest,
          same,
          b.order
              ∙ (sym (append_assoc (of_thread i log) (b.current ∷ []) b.rest)
                  ∙ ap (λ l. l ++ b.rest) (sym (of_thread_self log i b.current))),
        ),
      )
