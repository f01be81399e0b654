-- ===== src/Chat/Relay.antt =====
-- What the thread of udpchat/src/main.c promises of the messages that it handles, with no memory.
use mathlib.Core.List.{append_assoc}
use csockets.Base.{
  ℕ, ◌≡◌, Option, none, some, List, [], ◌∷◌, ◌++◌, map, ◌==◌, if◌then◌else◌, length,
}
use csockets.Heap.{Info}
use csockets.Users.Layout.{Cells, layout}
use csockets.Users.Roster.{update_cells}
use csockets.Users.Traverse.{infos}
use csockets.Chat.{
  System, Event, Received, datagram, failed, error_code, family_of_len, sender_of, env_at,
}
use csockets.Chat.Callbacks.{Packet}
use csockets.Chat.Callbacks.Broadcast.{Farewells, message}

-- The code of a message: whether the thread goes on behind it.
abbrev pub family_code : Option ℕ → ℕ
family_code none = 1
family_code (some family) = 0

abbrev pub code_of : Received → ℕ
code_of (failed errno) = error_code errno
code_of (datagram buffer addr addr_len) =
    if length buffer == 0 then 0 else family_code (family_of_len addr_len)

-- The sender and the text of a message, if it is one to deliver.
abbrev pub from_family : (family : Option ℕ) → (ℕ → Info) → List ℕ → Option (Info × List ℕ)
from_family none sender buffer = none
from_family (some family) sender buffer = some (sender family, buffer)

abbrev pub to_deliver : (sfd now : ℕ) → Received → Option (Info × List ℕ)
to_deliver sfd now (failed errno) = none
to_deliver sfd now (datagram buffer addr addr_len) =
    if length buffer == 0
    then none
    else from_family (family_of_len addr_len) (sender_of sfd now addr addr_len) buffer

module _ (sys : System) (timeout : ℕ) where
  -- From the users `xs`, a message leads to the users `ys` and sends `ps`: farewells to those that are
  -- dropped and, unless it counts as spam, its text to every user.
  abbrev pub Delivers : Option (Info × List ℕ) → (ℕ → ℕ) → Cells → Cells → List Packet → Type 0
  Delivers none later xs ys ps = (ys ≡ xs) × (ps ≡ [])
  Delivers (some (sender, buffer)) later xs ys ps =
      let o = update_cells (env_at sys later (layout xs)) timeout sender 0 xs in
      (ys ≡ o.users)
      × (farewells : List Packet) × Farewells o.gone farewells
      × (ps
          ≡ farewells ++ (if o.code == 1 then [] else map (message sender buffer) (infos o.users)))

  -- The same for messages that come one after the other, each with its socket.
  abbrev pub Relayed : Cells → List (ℕ × Event) → Cells → List Packet → Type 0
  Relayed xs [] zs ps = (zs ≡ xs) × (ps ≡ [])
  Relayed xs ((sfd, e) ∷ es) zs ps =
      (ys : Cells) × (qs : List Packet) × (rs : List Packet) × Delivers
        (to_deliver sfd e.now e.received) e.later xs ys qs
      × Relayed ys es zs rs
      × (ps ≡ qs ++ rs)

  pub Relayed-append :
      (es fs : List (ℕ × Event)) (xs ys zs : Cells) (ps qs : List Packet)
      → Relayed xs es ys ps
      → Relayed ys fs zs qs
      → Relayed xs (es ++ fs) zs (ps ++ qs)
  Relayed-append [] fs xs ys zs ps qs (same, none_sent) later = rw none_sent (rw same at later)
  Relayed-append ((sfd, e) ∷ es) fs xs ys zs ps qs (ms, one, rest, d, r, split) later = (
    ms,
    one,
    rest ++ qs,
    d,
    Relayed-append es fs ms ys zs rest qs r later,
    rw split (append_assoc one rest qs),
  )
