-- ===== src/Chat/Master/Loops.antt =====
-- The loops of the thread of udpchat/src/main.c.
use csockets.Base.{
  ℕ, suc, ◌+◌, ◌<◌, ◌≡◌, refl, ◌⊎◌, inl, inr, true, false, none, some, List, [], ◌∷◌, arith, ◌==◌,
  Bool-cases, length, All,
}
use csockets.Heap.{Ptr, null, Heap}
use csockets.Users.Layout.{Cells, has, IsDistinct, layout, segment, table_of}
use csockets.Chat.{System, Event, msg_handle}
use csockets.Chat.Callbacks.{World}
use csockets.Chat.Callbacks.Broadcast.{IsSized}
use csockets.Chat.Settled.{
  Fits, Settled, Settled_bind, Settled_mono, still, handle_received-Settled,
}
use csockets.Chat.Relay.{code_of}
use csockets.Chat.Master.Schedule.{handled, handled_rounds}
use csockets.Chat.Master.{
  Revents, pollin, pollpri, pollerr, pollhup, unlisted, Polled, interrupted, poll_failed, timed_out,
  ready, Round, round, check_fds, master_loop,
}

-- malloc(3) returns NULL or an address that is not in use.
abbrev pub IsFresh : System → Type 0
IsFresh sys = (h : Heap) → (sys.malloc h ≡ null) ⊎ (h (sys.malloc h) ≡ none)

not-has_of_none :
    (prev : Ptr) (xs : Cells) (stop a : Ptr) → segment prev xs stop a ≡ none → has a xs ≡ false
not-has_of_none prev [] stop a h = refl
not-has_of_none prev ((b, i) ∷ xs) stop a h = ground (arith, not-has_of_none b xs stop a)

not-has-null : (xs : Cells) → IsDistinct xs → has null xs ≡ false
not-has-null [] d = refl
not-has-null ((b, i) ∷ xs) d = ground (arith, not-has-null xs d.2)

unused :
    (sys : System) (xs : Cells)
    → IsFresh sys
    → IsDistinct xs
    → has (sys.malloc (layout xs)) xs ≡ false
unused sys xs fresh d = elim (fresh (layout xs)) [
  | inl e ↦ rw e (not-has-null xs d)
  | inr e ↦ not-has_of_none null xs null (sys.malloc (layout xs)) e
]

-- The messages of one call of poll(2), of all rounds, and that each fits its buffer.
abbrev pub AllFit : List (Revents × Event) → Type 0
AllFit = All (λ c. Fits c.1.received)

abbrev pub RoundFits : Round → Type 0
RoundFits (round _ (ready es)) = AllFit es
RoundFits _ = Unit {0}

abbrev pub polled_count : Polled → ℕ
polled_count (ready es) = length es
polled_count _ = 0

abbrev pub total : List Round → ℕ
total [] = 0
total (round _ polled ∷ rs) = polled_count polled + total rs

module _ (sys : System) (fuel timeout : ℕ) (fresh : IsFresh sys) where
  msg_handle-Settled :
      (w : World) (xs : Cells) (sfd : ℕ) (e : Event)
      → IsDistinct xs
      → length xs + 1 < fuel
      → Fits e.received
      → IsSized w
      → Settled sys timeout 1
          ((sfd, e) ∷ [])
          xs
          w
          (code_of e.received)
          (msg_handle sys fuel sfd e (table_of timeout xs) (layout xs) (some w))
  unfolding msg_handle
  msg_handle-Settled w xs sfd e d enough fits size =
      handle_received-Settled sys fuel timeout w xs sfd e e.received refl d (unused sys xs fresh d)
        enough fits size

  -- What `check_fds` does, by its description.
  abbrev Checks : World → Cells → List ℕ → List (Revents × Event) → Type 0
  Checks w xs fds es =
      Settled sys timeout (length es) (handled fds es).1 xs w (handled fds es).0
        (check_fds sys fuel fds es (table_of timeout xs) (layout xs) (some w))

  -- An entry with a message.
  read-Checks :
      (w : World) (xs : Cells) (sfd : ℕ) (fds : List ℕ) (e : Event) (es : List (Revents × Event))
      → (s : Settled sys timeout 1
          ((sfd, e) ∷ [])
          xs
          w
          (code_of e.received)
          (msg_handle sys fuel sfd e (table_of timeout xs) (layout xs) (some w)))
      → Checks s.sends.world s.users fds es
      → Checks w xs (sfd ∷ fds) ((pollin, e) ∷ es)
  unfolding check_fds
  read-Checks w xs sfd fds e es s rest = elim (Bool-cases (code_of e.received == 0)) [
    | inl z ↦ rw z (Settled_mono (omega arith) (Settled_bind {m = length es} _ s (rw z rest)))
    | inr z ↦ rw z (
        Settled_mono (omega arith) (
          Settled_bind {m = length es} _ s (
            rw z
              (still sys timeout (length es) s.users s.sends.world true s.distinct s.sends.sized))))
  ]

  check_fds-Settled :
      (w : World) (xs : Cells) (fds : List ℕ) (es : List (Revents × Event))
      → IsDistinct xs
      → length xs + length es < fuel
      → AllFit es
      → IsSized w
      → Checks w xs fds es
  unfolding check_fds
  check_fds-Settled w xs fds [] d enough fits size = still sys timeout 0 xs w false d size
  check_fds-Settled w xs [] (e ∷ es) d enough fits size =
      still sys timeout (suc (length es)) xs w false d size
  check_fds-Settled w xs (sfd ∷ fds) ((pollin, e) ∷ es) d enough fits size =
      let s = msg_handle-Settled w xs sfd e d (omega arith) fits.0 size in
      read-Checks w xs sfd fds e es s (
        check_fds-Settled s.sends.world s.users fds es s.distinct (omega (arith, s.bounded)) fits.1
          s.sends.sized)
  check_fds-Settled w xs (sfd ∷ fds) ((pollpri, e) ∷ es) d enough fits size =
      let s = msg_handle-Settled w xs sfd e d (omega arith) fits.0 size in
      read-Checks w xs sfd fds e es s (
        check_fds-Settled s.sends.world s.users fds es s.distinct (omega (arith, s.bounded)) fits.1
          s.sends.sized)
  check_fds-Settled w xs (sfd ∷ fds) ((pollerr, e) ∷ es) d enough fits size =
      still sys timeout (suc (length es)) xs w true d size
  check_fds-Settled w xs (sfd ∷ fds) ((pollhup, e) ∷ es) d enough fits size =
      still sys timeout (suc (length es)) xs w true d size
  check_fds-Settled w xs (sfd ∷ fds) ((unlisted, e) ∷ es) d enough fits size =
      Settled_mono (omega arith) (check_fds-Settled w xs fds es d (omega arith) fits.1 size)

  pub master_loop-Settled :
      (w : World) (xs : Cells) (fds : List ℕ) (rs : List Round)
      → IsDistinct xs
      → length xs + total rs < fuel
      → All RoundFits rs
      → IsSized w
      → Settled sys timeout
          (total rs)
          (handled_rounds fds rs)
          xs
          w
          tt
          (master_loop sys fuel fds rs (table_of timeout xs) (layout xs) (some w))
  unfolding master_loop
  master_loop-Settled w xs fds [] d enough fits size = still sys timeout 0 xs w tt d size
  master_loop-Settled w xs fds (round false p ∷ rs) d enough fits size =
      still sys timeout (polled_count p + total rs) xs w tt d size
  master_loop-Settled w xs fds (round true interrupted ∷ rs) d enough fits size =
      Settled_mono (omega arith) (master_loop-Settled w xs fds rs d (omega arith) fits.1 size)
  master_loop-Settled w xs fds (round true poll_failed ∷ rs) d enough fits size =
      Settled_mono (omega arith) (still sys timeout (total rs) xs w tt d size)
  master_loop-Settled w xs fds (round true timed_out ∷ rs) d enough fits size =
      Settled_mono (omega arith) (master_loop-Settled w xs fds rs d (omega arith) fits.1 size)
  master_loop-Settled w xs fds (round true (ready es) ∷ rs) d enough fits size =
      let s = check_fds-Settled w xs fds es d (omega arith) fits.0 size in
      Settled_bind {m = total rs} _ s (elim (Bool-cases (handled fds es).0) [
        | inl z ↦
            rw z (still sys timeout (total rs) s.users s.sends.world tt s.distinct s.sends.sized)
        | inr z ↦ rw z (
            master_loop-Settled s.sends.world s.users fds rs s.distinct (omega (arith, s.bounded))
              fits.1 s.sends.sized)
      ])
