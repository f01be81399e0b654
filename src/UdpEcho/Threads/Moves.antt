-- ===== src/UdpEcho/Threads/Moves.antt =====
-- The steps of udpecho/main.c, one at a time, keep what holds of its threads.
use csockets.Base.{
  ℕ, suc, ◌≤◌, ◌<◌, ◌≡◌, ◌≢◌, refl, sym, ap, subst, ◌∙◌, inl, inr, Bool, true, false, ◌==◌,
  Bool-cases, update, arith, ==_eq,
}
use csockets.UdpEcho.Threads.{
  MainPc, creating, stopping, joining, closing, waiting, finished, Pc, absent, testing, ended,
  State,
}

-- Of how many threads the flag is cleared, and how many are joined.
abbrev pub cleared : ℕ → MainPc → ℕ
cleared len (stopping k) = k
cleared len (joining k) = len
cleared len (closing k) = len
cleared len finished = len
cleared len _ = 0

abbrev pub joined : ℕ → MainPc → ℕ
joined len (joining k) = k
joined len (closing k) = len
joined len finished = len
joined len _ = 0

abbrev pub Counted : ℕ → ℕ → MainPc → Type 0
Counted n len (creating k) = (len ≡ k) × (k ≤ n)
Counted n len (stopping k) = (k ≤ len) × (len ≤ n)
Counted n len (joining k) = (k ≤ len) × (len ≤ n)
Counted n len (closing k) = (k ≤ n) × (len ≤ n)
Counted n len _ = (len ≤ n) × (0 ≤ len)

pub record Inv (n : ℕ) (s : State) : Type 0 where
  pub counted : Counted n s.len s.main
  pub missing : (i : ℕ) → s.len ≤ i → s.pc i ≡ absent
  pub present : (i : ℕ) → i < s.len → s.pc i ≢ absent
  pub down : (i : ℕ) → i < cleared s.len s.main → s.run i ≡ false
  pub over : (i : ℕ) → i < joined s.len s.main → s.pc i ≡ ended

abbrev Absent : State → Type 0
Absent s = (i : ℕ) → s.len ≤ i → s.pc i ≡ absent

-- A thread that is there goes from `p` to `p'`.
pub moved :
    (n : ℕ) (s : State) (i : ℕ) (p p' : Pc)
    → s.pc i ≡ p
    → p ≢ absent
    → p ≢ ended
    → p' ≢ absent
    → Inv n s
    → Inv n (record s { pc = update s.pc i p' })
moved n s i p p' e here runs there h = record {
  counted = h.counted;
  missing = λ j le. elim (Bool-cases (i == j)) [
    | inl f ↦ absurd (here (sym e ∙ (ap s.pc (==_eq i j f) ∙ h.missing j le)))
    | inr f ↦ rw f (h.missing j le)
  ];
  present =
      λ j lt. elim (Bool-cases (i == j)) [ inl f ↦ rw f there | inr f ↦ rw f (h.present j lt) ];
  down = h.down;
  over = λ j lt. elim (Bool-cases (i == j)) [
    | inl f ↦ absurd (runs (sym e ∙ (ap s.pc (==_eq i j f) ∙ h.over j lt)))
    | inr f ↦ rw f (h.over j lt)
  ];
}

-- `main` goes to `m`.
main_moved :
    (n : ℕ) (s : State) (m : MainPc) (run : ℕ → Bool)
    → Counted n s.len m
    → ((i : ℕ) → i < cleared s.len m → run i ≡ false)
    → ((i : ℕ) → i < joined s.len m → s.pc i ≡ ended)
    → Inv n s
    → Inv n (record s { main = m; run = run })
main_moved n s m run c d o h = record {
  counted = c;
  missing = h.missing;
  present = h.present;
  down = d;
  over = o;
}

module _ (n : ℕ) (s : State) (h : Inv n s) where
  -- The invariant where `main` stands at `m`.
  facts :
      (m : MainPc)
      → s.main ≡ m
      → Counted n s.len m
        × ((i : ℕ) → i < cleared s.len m → s.run i ≡ false)
        × ((i : ℕ) → i < joined s.len m → s.pc i ≡ ended)
  facts m e = (
    subst (Counted n s.len) e h.counted,
    subst (λ x. (i : ℕ) → i < cleared s.len x → s.run i ≡ false) e h.down,
    subst (λ x. (i : ℕ) → i < joined s.len x → s.pc i ≡ ended) e h.over,
  )

  pub creates-Inv :
      (k : ℕ)
      → s.main ≡ creating k
      → k < n
      → Inv n (record {
        main = creating (suc k);
        len = suc s.len;
        run = update s.run k true;
        pc = update s.pc k testing;
      })
  creates-Inv k e lt =
      let (same, le) = (facts (creating k) e).0 in
      record {
        counted = (omega (arith, same), omega arith);
        missing = λ j far.
            let other : (k == j) ≡ false = ground (arith, same) in
            rw other (h.missing j (omega arith));
        present = λ j near. elim (Bool-cases (k == j)) [
          | inl f ↦ rw f (λ x. cc x)
          | inr f ↦ rw f (h.present j (ground (arith, same)))
        ];
        down = λ j none. absurd (omega arith);
        over = λ j none. absurd (omega arith);
      }

  pub waits-Inv : (k : ℕ) → s.main ≡ creating k → Inv n (record s { main = waiting })
  waits-Inv k e =
      let (same, le) = (facts (creating k) e).0 in
      main_moved n s waiting s.run (omega (arith, same, le), omega arith)
        (λ j none. absurd (omega arith)) (λ j none. absurd (omega arith)) h

  pub to_stop-Inv : s.len ≤ n → Inv n (record s { main = stopping 0 })
  to_stop-Inv le =
      main_moved n s (stopping 0) s.run (omega arith, le) (λ j none. absurd (omega arith))
        (λ j none. absurd (omega arith)) h

  pub stops-Inv :
      (k : ℕ)
      → s.main ≡ stopping k
      → k < s.len
      → Inv n (record s { main = stopping (suc k); run = update s.run k false })
  stops-Inv k e lt =
      let (counts, down, over) = facts (stopping k) e in
      let (_, le) = counts in
      main_moved n s (stopping (suc k)) (update s.run k false) (omega arith, le)
        (λ j near. elim (Bool-cases (k == j)) [
          | inl f ↦ rw f refl
          | inr f ↦ rw f (down j (ground arith))
        ])
        (λ j none. absurd (omega arith)) h

  pub stopped-Inv :
      (k : ℕ) → s.main ≡ stopping k → s.len ≤ k → Inv n (record s { main = joining 0 })
  stopped-Inv k e ge =
      let (counts, down, over) = facts (stopping k) e in
      let (_, le) = counts in
      main_moved n s (joining 0) s.run (omega arith, le) (λ j near. down j (omega arith))
        (λ j none. absurd (omega arith)) h

  pub joins-Inv :
      (k : ℕ)
      → s.main ≡ joining k
      → k < s.len
      → s.pc k ≡ ended
      → Inv n (record s { main = joining (suc k) })
  joins-Inv k e lt end =
      let (counts, down, over) = facts (joining k) e in
      let (_, le) = counts in
      main_moved n s (joining (suc k)) s.run (omega arith, le) down
        (λ j near. elim (Bool-cases (k == j)) [
          | inl f ↦ sym (ap s.pc (==_eq k j f)) ∙ end
          | inr f ↦ over j (ground arith)
        ])
        h

  pub joined-Inv : (k : ℕ) → s.main ≡ joining k → s.len ≤ k → Inv n (record s { main = closing 0 })
  joined-Inv k e ge =
      let (counts, down, over) = facts (joining k) e in
      let (_, le) = counts in
      main_moved n s (closing 0) s.run (omega arith, le) down (λ j near. over j (omega arith)) h

  pub closes-Inv :
      (k : ℕ) → s.main ≡ closing k → k < n → Inv n (record s { main = closing (suc k) })
  closes-Inv k e lt =
      let (counts, down, over) = facts (closing k) e in
      let (_, le) = counts in main_moved n s (closing (suc k)) s.run (omega arith, le) down over h

  pub closed-Inv : (k : ℕ) → s.main ≡ closing k → Inv n (record s { main = finished })
  closed-Inv k e =
      let (counts, down, over) = facts (closing k) e in
      let (_, le) = counts in main_moved n s finished s.run (le, omega arith) down over h
