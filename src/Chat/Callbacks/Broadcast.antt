-- ===== src/Chat/Callbacks/Broadcast.antt =====
-- What the callbacks of udpchat/src/main.c send to a list of users.
use mathlib.Core.List.{append_assoc, append-nil}
use csockets.Base.{
  ℕ, zero, suc, ◌^◌, ◌≤◌, ◌<◌, ◌≡◌, refl, ◌∙◌, Bool, Option, some, List, [], ◌∷◌, ◌++◌, arith,
  Bool-cases, inl, inr, ◌==◌, map, length, take, take-append, length-append, replicate,
}
use csockets.Heap.{Info}
use csockets.Formatter.{Buffers, msg_total_len, msg_formatter}
use csockets.Formatter.Frame.{frame, leftover, msg_formatter-frame, length-frame, length-leftover}
use csockets.Users.Roster.{notify}
use csockets.Chat.Callbacks.{
  World, Packet, packet_to, send, sendall_func, timeout_str, timeout_count, timeout_loop,
  timeout_func,
}

-- The buffer of the formatter keeps its size.
abbrev pub IsSized : World → Type 0
IsSized w = length w.buffers.return_buffer ≡ msg_total_len

-- A world with other buffers, of the right size, and these datagrams more.
pub record Sends (packets : List Packet) (w : World) (w' : Option World) : Type 0 where
  pub world : World
  pub defined : w' ≡ some world
  pub sized : IsSized world
  pub sent : world.sent ≡ w.sent ++ packets

-- What a call of the formatter gives: the text, as long as it is said to be, in a buffer that
-- keeps its size.
record Formats (b : Buffers) (id receiver_id : ℕ) (body : List ℕ) : Type 0 where
  buffers : Buffers
  result :
      msg_formatter b id receiver_id (some body) (length body)
      ≡ some (length (frame id body (length body)), buffers)
  shows :
      take (length (frame id body (length body))) buffers.return_buffer
      ≡ frame id body (length body)
  keeps : length buffers.return_buffer ≡ msg_total_len

formats :
    (id receiver_id : ℕ) (body : List ℕ) (b : Buffers)
    → 1 ≤ length body
    → length body < 2 ^ 64
    → length b.return_buffer ≡ msg_total_len
    → Formats b id receiver_id body
formats id receiver_id body b pos small size =
    let text = frame id body (length body) in
    let rest = leftover b.return_buffer (length text) in
    let short = length-frame id body (length body) pos (omega arith) in
    record {
      buffers = _;
      result = msg_formatter-frame b id receiver_id (length body) body size pos small (omega arith);
      shows = take-append text rest 0 (length text) (omega arith) ∙ append-nil text;
      keeps =
          length-append text rest
          ∙ length-leftover b.return_buffer (length text) size (omega (arith, short));
    }

-- One text to one user, as often as `packets` says.
abbrev pub message : Info → List ℕ → Info → Packet
message sender body u = packet_to u (frame sender.id body (length body))

sent_message :
    (w : World) (b : Buffers) (sender : Info) (body : List ℕ) (u : Info)
    → take (length (frame sender.id body (length body))) b.return_buffer
      ≡ frame sender.id body (length body)
    → (send (record w { buffers = b }) u (length (frame sender.id body (length body)))).sent
      ≡ w.sent ++ message sender body u ∷ []
sent_message w b sender body u e = rw e

sendall_func-Sends :
    (sender : Info) (body : List ℕ) (u : Info) (w : World)
    → 1 ≤ length body
    → length body < 2 ^ 64
    → IsSized w
    → Sends (message sender body u ∷ []) w (sendall_func sender body (length body) u (some w))
unfolding sendall_func
sendall_func-Sends sender body u w pos small size =
    let f = formats sender.id u.id body w.buffers pos small size in
    let done : Sends (message sender body u ∷ []) w (
        some (
          send (record w { buffers = f.buffers }) u
            (length (frame sender.id body (length body))))) =
      record {
        world =
            send (record w { buffers = f.buffers }) u (length (frame sender.id body (length body)));
        defined = refl;
        sized = f.keeps;
        sent = sent_message w f.buffers sender body u f.shows;
      } in
    elim (Bool-cases (u.id == sender.id)) [
      | inl e ↦ rw (e, f.result) done
      | inr e ↦ rw (e, f.result) done
    ]

-- Two stretches of datagrams.
pub Sends-trans :
    {ps qs : List Packet} {w : World} {w' w'' : Option World} (s : Sends ps w w')
    → Sends qs s.world w''
    → Sends (ps ++ qs) w w''
Sends-trans {ps} {qs} {w} s t = record {
  world = t.world;
  defined = t.defined;
  sized = t.sized;
  sent = t.sent ∙ rw s.sent (append_assoc w.sent ps qs);
}

pub Sends-nil : (w : World) → IsSized w → Sends [] w (some w)
Sends-nil w size = record { world = w; defined = refl; sized = size; sent = simp append-nil }

-- For a message of at least one byte and a formatter's buffer of its size, `sendall_func` on a
-- list of users hands sendto(2) the formatted message once for every user, in order.
pub notify-sendall_func :
    (sender : Info) (body : List ℕ) (us : List Info) (w : World)
    → 1 ≤ length body
    → length body < 2 ^ 64
    → IsSized w
    → Sends
        (map (message sender body) us)
        w
        (notify (sendall_func sender body (length body)) us (some w))
unfolding notify
notify-sendall_func sender body [] w pos small size = Sends-nil w size
notify-sendall_func sender body (u ∷ us) w pos small size =
    let s = sendall_func-Sends sender body u w pos small size in
    rw s.defined (Sends-trans s (notify-sendall_func sender body us s.world pos small s.sized))

-- The text that a user is sent when it is dropped.
pub farewell : Info → Packet
farewell u = packet_to u (frame 0 timeout_str (length timeout_str))

-- The farewells of some users: for each one to three copies, in order.
pub data Farewells : List Info → List Packet → Type 0 where
  nil : Farewells [] []
  cons :
      {u : Info} {us : List Info} {ps : List Packet} (n : ℕ)
      → 1 ≤ n
      → n ≤ timeout_count
      → Farewells us ps
      → Farewells (u ∷ us) (replicate n (farewell u) ++ ps)

timeout_loop-Sends :
    (accepts : List Packet → Bool) (k : ℕ) (u : Info) (w : World)
    → IsSized w
    → take (length (frame 0 timeout_str (length timeout_str))) w.buffers.return_buffer
      ≡ frame 0 timeout_str (length timeout_str)
    → (n : ℕ) × (n ≤ k)
      × (1 ≤ k → 1 ≤ n)
      × Sends
          (replicate n (farewell u))
          w
          (some (timeout_loop accepts k u (length (frame 0 timeout_str (length timeout_str))) w))
unfolding timeout_loop farewell
timeout_loop-Sends accepts zero u w size e = (0, omega arith, λ h. h, Sends-nil w size)
timeout_loop-Sends accepts (suc k) u w size e =
    let w' = send w u (length (frame 0 timeout_str (length timeout_str))) in
    let one : Sends (farewell u ∷ []) w (some w') = record {
      world = w';
      defined = refl;
      sized = size;
      sent = rw e refl;
    } in
    elim (Bool-cases (accepts w'.sent)) [
      | inl y ↦
          let (n, le, _, s) = timeout_loop-Sends accepts k u w' size e in
          (suc n, omega arith, λ _. omega arith, rw y (Sends-trans one s))
      | inr y ↦ (1, omega arith, λ _. omega arith, rw y one)
    ]

timeout_func-Sends :
    (accepts : List Packet → Bool) (u : Info) (w : World)
    → IsSized w
    → (n : ℕ) × (1 ≤ n)
      × (n ≤ timeout_count)
      × Sends (replicate n (farewell u)) w (timeout_func accepts u (some w))
unfolding timeout_func
timeout_func-Sends accepts u w size =
    let f = formats 0 u.id timeout_str w.buffers (omega arith) (omega arith) size in
    let (n, le, pos, s) =
      timeout_loop-Sends accepts timeout_count u (record w { buffers = f.buffers }) f.keeps
        f.shows in
    (
      n,
      pos (omega arith),
      le,
      rw f.result (record { world = s.world; defined = s.defined; sized = s.sized; sent = s.sent }),
    )

-- With a formatter's buffer of its size, `timeout_func` on a list of users hands sendto(2) the
-- farewell of every user one to three times, in order.
pub notify-timeout_func :
    (accepts : List Packet → Bool) (us : List Info) (w : World)
    → IsSized w
    → (ps : List Packet) × Farewells us ps × Sends ps w (notify (timeout_func accepts) us (some w))
unfolding notify
notify-timeout_func accepts [] w size = ([], nil, Sends-nil w size)
notify-timeout_func accepts (u ∷ us) w size =
    let (n, pos, le, s) = timeout_func-Sends accepts u w size in
    let (ps, f, t) = notify-timeout_func accepts us s.world s.sized in
    (replicate n (farewell u) ++ ps, cons n pos le f, rw s.defined (Sends-trans s t))
