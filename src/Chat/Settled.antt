-- ===== src/Chat/Settled.antt =====
-- That the thread of udpchat/src/main.c keeps its table well formed, whatever it receives.
use mathlib.Core.List.{append-nil}
use csockets.Base.{
  ℕ, ◌+◌, ◌≤◌, ◌<◌, ◌≡◌, refl, sym, inl, inr, false, Option, none, some, List, [], ◌∷◌, ◌++◌, map,
  if◌then◌else◌, arith, ◌==◌, Bool-cases, Option-cases, length,
}
use csockets.Heap.{Run, Cmd, ok, and_then}
use csockets.Users.{Table}
use csockets.Users.Layout.{Cells, has, IsDistinct, layout, table_of}
use csockets.Users.Roster.{update_cells}
use csockets.Users.Contract.{update_cells-IsDistinct, update_cells-code}
use csockets.Chat.{
  System, Event, Received, datagram, failed, family_of_len, sender_of, env_at, handle_received,
  max_msg_size,
}
use csockets.Chat.Callbacks.{World, Packet}
use csockets.Chat.Callbacks.Broadcast.{IsSized, Sends, Sends-nil, Sends-trans, message}
use csockets.Users.Traverse.{infos}
use csockets.Chat.Relay.{code_of, to_deliver, Relayed, Relayed-append}
use csockets.Chat.Handle.{deliver-Handled}

-- What recvfrom(2) writes fits the buffer that it is given.
abbrev pub Fits : Received → Type 0
Fits (datagram buffer _ _) = length buffer ≤ max_msg_size
Fits (failed _) = Unit {0}

-- A call of the thread ends with the value `v` and a table of distinct users in a memory that holds
-- just these, at most `n` users more, as the messages `es` make it, with their datagrams sent.
pub record Settled {A : Type 0} (sys : System) (timeout n : ℕ) (es : List (ℕ × Event)) (xs : Cells)
    (w : World) (v : A) (r : Run (Option World) (A × Table)) : Type 0 where
  pub users : Cells
  pub packets : List Packet
  pub final : Option World
  pub ends : r ≡ ok (v, table_of timeout users) (layout users) final
  pub relayed : Relayed sys timeout xs es users packets
  pub sends : Sends packets w final
  pub distinct : IsDistinct users
  pub bounded : length users ≤ length xs + n

abbrev pub still :
    {A : Type 0} (sys : System) (timeout n : ℕ) (xs : Cells) (w : World) (a : A)
    → IsDistinct xs
    → IsSized w
    → Settled sys timeout n [] xs w a (ok (a, table_of timeout xs) (layout xs) (some w))
still sys timeout n xs w a d size = record {
  users = xs;
  packets = [];
  final = some w;
  ends = refl;
  relayed = (refl, refl);
  sends = Sends-nil w size;
  distinct = d;
  bounded = omega arith;
}

-- One call behind another.
pub Settled_bind :
    {A B : Type 0} {sys : System} {timeout n m : ℕ} {es fs : List (ℕ × Event)} {xs : Cells}
    {w : World} {a : A} {b : B} {r : Run (Option World) (A × Table)}
    (k : A × Table → Cmd (Option World) (B × Table)) (s : Settled sys timeout n es xs w a r)
    → Settled sys timeout m fs s.users s.sends.world b
        (k (a, table_of timeout s.users) (layout s.users) (some s.sends.world))
    → Settled sys timeout (n + m) (es ++ fs) xs w b (and_then r k)
Settled_bind {sys} {timeout} {m} {es} {fs} {xs} k s t = record {
  users = t.users;
  packets = s.packets ++ t.packets;
  final = t.final;
  ends = rw (s.ends, s.sends.defined) t.ends;
  relayed =
      Relayed-append sys timeout es fs xs s.users t.users s.packets t.packets s.relayed t.relayed;
  sends = Sends-trans s.sends t.sends;
  distinct = t.distinct;
  bounded = omega (arith, s.bounded, t.bounded);
}

pub Settled_mono :
    {A : Type 0} {sys : System} {timeout n m : ℕ} {es : List (ℕ × Event)} {xs : Cells} {w : World}
    {a : A} {r : Run (Option World) (A × Table)}
    → n ≤ m
    → Settled sys timeout n es xs w a r
    → Settled sys timeout m es xs w a r
Settled_mono le s = record {
  users = s.users;
  packets = s.packets;
  final = s.final;
  ends = s.ends;
  relayed = s.relayed;
  sends = s.sends;
  distinct = s.distinct;
  bounded = omega (arith, s.bounded);
}

-- A message that is not delivered.
dropped :
    (sys : System) (timeout : ℕ) (xs : Cells) (w : World) (sfd : ℕ) (e : Event) (a : ℕ)
    → to_deliver sfd e.now e.received ≡ none
    → IsDistinct xs
    → IsSized w
    → Settled sys timeout 1
        ((sfd, e) ∷ [])
        xs
        w
        a
        (ok (a, table_of timeout xs) (layout xs) (some w))
dropped sys timeout xs w sfd e a nothing d size = record {
  users = xs;
  packets = [];
  final = some w;
  ends = refl;
  relayed = (xs, [], [], rw nothing (refl, refl), (refl, refl), refl);
  sends = Sends-nil w size;
  distinct = d;
  bounded = omega arith;
}

module _ (sys : System) (fuel timeout : ℕ) (w : World) (xs : Cells) (sfd : ℕ) where
  pub handle_received-Settled :
      (e : Event) (r : Received)
      → e.received ≡ r
      → IsDistinct xs
      → has (sys.malloc (layout xs)) xs ≡ false
      → length xs + 1 < fuel
      → Fits r
      → IsSized w
      → Settled sys timeout 1
          ((sfd, e) ∷ [])
          xs
          w
          (code_of r)
          (handle_received sys fuel sfd e r (table_of timeout xs) (layout xs) (some w))
  unfolding handle_received
  handle_received-Settled e (failed errno) g d fresh enough fits size =
      dropped sys timeout xs w sfd e _ (rw g refl) d size
  handle_received-Settled e (datagram buffer addr addr_len) g d fresh enough fits size =
      elim (Bool-cases (length buffer == 0)) [
        | inl z ↦ rw z (dropped sys timeout xs w sfd e 0 (rw (g, z) refl) d size)
        | inr z ↦ elim (Option-cases (family_of_len addr_len)) [
          | inl f ↦ rw (z, f) (dropped sys timeout xs w sfd e 1 (rw (g, z, f) refl) d size)
          | inr (family, f) ↦
              let env = env_at sys e.later (layout xs) in
              let sender = sender_of sfd e.now addr addr_len family in
              let h =
                deliver-Handled sys fuel timeout w xs e.later sender buffer d fresh enough
                  (ground arith) (omega arith) size in
              let o = update_cells env timeout sender 0 xs in
              rw (z, f)
                (record {
                  users = o.users;
                  packets =
                      h.farewells
                      ++ (if o.code == 1 then [] else map (message sender buffer) (infos o.users));
                  final = h.world;
                  ends = h.ends;
                  relayed = (
                    o.users,
                    _,
                    [],
                    rw (g, z, f) (refl, h.farewells, h.fare, refl),
                    (refl, refl),
                    sym (append-nil _),
                  );
                  sends = h.sends;
                  distinct = update_cells-IsDistinct env timeout sender 0 xs d fresh;
                  bounded = (update_cells-code env timeout sender 0 xs).1;
                })
        ]
      ]
