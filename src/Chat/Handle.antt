-- ===== src/Chat/Handle.antt =====
-- One message in `msg_handle` of udpchat/src/main.c.
use mathlib.Core.List.{append-nil}
use csockets.Base.{
  ℕ, ◌+◌, ◌^◌, ◌≤◌, ◌<◌, ◌≡◌, refl, inl, inr, false, Option, none, some, List, [], ◌++◌, map, arith,
  ◌==◌, if◌then◌else◌, length,
}
use csockets.Net.{Storage}
use csockets.Heap.{Info, Heap, Run, ok}
use csockets.Users.{Table}
use csockets.Users.Layout.{Cells, has, IsDistinct, layout, table_of}
use csockets.Users.Roster.{notify, Outcome, update_cells}
use csockets.Users.Contract.{
  user_table_update-update_cells, update_cells-IsDistinct, update_cells-code,
}
use csockets.Users.Traverse.{infos, user_table_every-notify}
use csockets.Chat.{
  System, datagram, failed, Errno, error_code, family_of_len, sender_of, env_at, deliver,
  handle_received, event, msg_handle, max_msg_size,
}
use csockets.Chat.Callbacks.{World, Packet, sendall_func}
use csockets.Chat.Callbacks.Broadcast.{
  IsSized, Sends, Farewells, message, Sends-trans, notify-sendall_func, notify-timeout_func,
}

-- The end of a handled message: the code, the users, and the datagrams, which are the farewells of
-- those that were dropped and, unless the message counts as spam, the message to every user.
pub record Handled (sender : Info) (buffer : List ℕ) (timeout : ℕ) (o : Outcome) (w : World)
    (r : Run (Option World) (ℕ × Table)) : Type 0 where
  pub world : Option World
  pub ends : r ≡ ok (0, table_of timeout o.users) (layout o.users) world
  pub farewells : List Packet
  pub fare : Farewells o.gone farewells
  pub sends :
      Sends
        (farewells ++ (if o.code == 1 then [] else map (message sender buffer) (infos o.users)))
        w
        world

module _ (sys : System) (fuel timeout : ℕ) (w : World) (xs : Cells) where
  pub deliver-Handled :
      (time : ℕ → ℕ) (sender : Info) (buffer : List ℕ)
      → IsDistinct xs
      → has (sys.malloc (layout xs)) xs ≡ false
      → length xs + 1 < fuel
      → 1 ≤ length buffer
      → length buffer < 2 ^ 64
      → IsSized w
      → Handled sender buffer timeout
          (update_cells (env_at sys time (layout xs)) timeout sender 0 xs)
          w
          (deliver sys fuel time sender buffer (table_of timeout xs) (layout xs) (some w))
  unfolding deliver
  deliver-Handled time sender buffer d fresh enough pos small size =
      let env = env_at sys time (layout xs) in
      let o = update_cells env timeout sender 0 xs in
      let (ps, f, s) = notify-timeout_func sys.accepts o.gone w size in
      let c = update_cells-code env timeout sender 0 xs in
      let d' = update_cells-IsDistinct env timeout sender 0 xs d fresh in
      let t = notify-sendall_func sender buffer (infos o.users) s.world pos small s.sized in
      let updated =
        user_table_update-update_cells env fuel timeout sender (some w) xs d fresh (omega arith) in
      let told =
        user_table_every-notify (sendall_func sender buffer (length buffer)) fuel timeout
          (notify env.timeout_func o.gone (some w)) o.users d' (omega (arith, c.1)) in
      elim c.0 [
        | inl e ↦ record {
          world =
              notify (sendall_func sender buffer (length buffer)) (infos o.users)
                (notify env.timeout_func o.gone (some w));
          ends = rw (updated, e, told) refl;
          farewells = ps;
          fare = f;
          sends = rw (e, s.defined) (Sends-trans s t);
        }
        | inr e ↦ record {
          world = notify env.timeout_func o.gone (some w);
          ends = rw (updated, e) refl;
          farewells = ps;
          fare = f;
          sends = rw e (simp append-nil s);
        }
      ]

module _ (sys : System) (fuel timeout : ℕ) (w : World) (xs : Cells) (sfd : ℕ) where
  -- A message of 1 to 2048 bytes from an internet address, with distinct nodes, an address from
  -- malloc(3) that none of them has, fuel for one more, and a formatter's buffer of its size: the
  -- memory, table and datagrams that `msg_handle` leaves are those of the abstract update. Those
  -- dropped are told first, and then every user is sent the message unless it counts as spam; the
  -- code is 0.
  pub msg_handle-Handled :
      (buffer : List ℕ) (addr : Storage) (addr_len family now : ℕ) (later : ℕ → ℕ)
      → family_of_len addr_len ≡ some family
      → 1 ≤ length buffer
      → length buffer ≤ max_msg_size
      → IsDistinct xs
      → has (sys.malloc (layout xs)) xs ≡ false
      → length xs + 1 < fuel
      → IsSized w
      → let sender = sender_of sfd now addr addr_len family in
        Handled sender buffer timeout
          (update_cells (env_at sys later (layout xs)) timeout sender 0 xs)
          w
          (msg_handle sys fuel sfd
            (event (datagram buffer addr addr_len) now later)
            (table_of timeout xs)
            (layout xs)
            (some w))
  unfolding msg_handle handle_received
  msg_handle-Handled buffer addr addr_len family now later f pos fits d fresh enough size =
      let nonzero : (length buffer == 0) ≡ false = ground arith in
      rw (nonzero, f)
        (deliver-Handled sys fuel timeout w xs later (sender_of sfd now addr addr_len family) buffer
          d fresh enough pos (omega arith) size)

  -- Every other outcome of recvfrom(2) leaves table, memory and socket as they are: an error gives
  -- the code of its case, an empty datagram 0, and an address of unknown length 1.
  pub msg_handle_other :
      (h : Heap) (table : Table) (now : ℕ) (later : ℕ → ℕ)
      → ((errno : Errno)
          → msg_handle sys fuel sfd (event (failed errno) now later) table h (some w)
            ≡ ok (error_code errno, table) h (some w))
        × ((addr : Storage) (addr_len : ℕ)
            → msg_handle sys fuel sfd (event (datagram [] addr addr_len) now later) table h (some w)
              ≡ ok (0, table) h (some w))
        × ((buffer : List ℕ) (addr : Storage) (addr_len : ℕ)
            → 1 ≤ length buffer
            → family_of_len addr_len ≡ none
            → msg_handle sys fuel sfd
                (event (datagram buffer addr addr_len) now later)
                table
                h
                (some w)
              ≡ ok (1, table) h (some w))
  unfolding msg_handle handle_received
  msg_handle_other h table now later = (
    λ errno. refl,
    λ addr addr_len. refl,
    λ buffer addr addr_len pos f.
        let nonzero : (length buffer == 0) ≡ false = ground arith in rw (nonzero, f),
  )
