-- ===== src/Chat/Master/Schedule.antt =====
-- Which messages `master_func` of udpchat/src/main.c handles.
use csockets.Base.{ℕ, Bool, true, false, List, [], ◌∷◌, ◌++◌, ◌==◌, if◌then◌else◌}
use csockets.Chat.{Event}
use csockets.Chat.Relay.{code_of}
use csockets.Chat.Master.{
  Revents, pollin, pollpri, pollerr, pollhup, unlisted, interrupted, poll_failed, timed_out, ready,
  Round, round,
}

-- Of one call of poll(2): the messages at entries that can be read, each with its socket, up to one
-- whose code is not 0 or an entry with an error; and whether there was one.
abbrev pub handled : List ℕ → List (Revents × Event) → Bool × List (ℕ × Event)
handled fds [] = (false, [])
handled [] (e ∷ es) = (false, [])
handled (sfd ∷ fds) ((revents, e) ∷ es) =
    let (stop, rest) = handled fds es in
    let read = if code_of e.received == 0 then (stop, (sfd, e) ∷ rest) else (true, (sfd, e) ∷ []) in
    elim revents [
      | pollin ↦ read
      | pollpri ↦ read
      | pollerr ↦ (true, [])
      | pollhup ↦ (true, [])
      | unlisted ↦ (stop, rest)
    ]

-- Of all rounds.
abbrev pub handled_rounds : List ℕ → List Round → List (ℕ × Event)
handled_rounds fds [] = []
handled_rounds fds (round run polled ∷ rs) =
    let rest = handled_rounds fds rs in
    if run
    then (elim polled [
      | interrupted ↦ rest
      | poll_failed ↦ []
      | timed_out ↦ rest
      | ready es ↦ (handled fds es).1 ++ (if (handled fds es).0 then [] else rest)
    ])
    else []
