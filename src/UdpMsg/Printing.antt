-- ===== src/UdpMsg/Printing.antt =====
-- The output of `server` in udpmsg/main.old.c over everything that arrives.
use csockets.Base.{
  ℕ, zero, suc, inl, inr, ◌⊎◌, ◌+◌, ◌≤◌, ◌<◌, ◌≡◌, ◌≢◌, refl, ◌∙◌, true, false, Option, some, List,
  [], ◌∷◌, ◌++◌, map, length, arith, replicate, All, drop, take, ltb,
}
use csockets.Net.{af_inet}
use csockets.UdpMsg.{
  Outcome, returns, stops, newline, max_packet_size, Text, State, Received, datagram, refused, Line,
  empty, from_ipv4, message, goes, turn, waits, after, server_loop, fresh, server,
}
use csockets.UdpMsg.Receiving.{turn-message}

-- A line of text that was sent: its bytes before the last one, the last one, how many newlines stand
-- behind it, the sender as a text, and the bytes and the length of the sender's address.
pub record TextPacket : Type 0 where
  pub body : List ℕ
  pub last : ℕ
  pub newlines : ℕ
  pub ip : Text
  pub clientaddr : List ℕ
  pub clientaddr_len : ℕ

abbrev pub text : TextPacket → Text
text p = p.body ++ (p.last ∷ [])

abbrev pub bytes : TextPacket → List ℕ
bytes p = p.body ++ (p.last ∷ replicate p.newlines newline)

pub data Event : Type 0 where
  connection_refused : Event
  nothing : List ℕ → ℕ → Event
  line : TextPacket → Event

abbrev pub arrival : Event → Received
arrival connection_refused = refused
arrival (nothing clientaddr clientaddr_len) = datagram [] clientaddr clientaddr_len
arrival (line p) = datagram (bytes p) p.clientaddr p.clientaddr_len

abbrev pub shown : Event → List Line
shown connection_refused = []
shown (nothing clientaddr clientaddr_len) = empty ∷ []
shown (line p) = from_ipv4 ∷ message p.ip (length (bytes p)) (text p) ∷ []

abbrev pub all_shown : List Event → List Line
all_shown [] = []
all_shown (e ∷ es) = shown e ++ all_shown es

abbrev pub refusals : List Event → ℕ
refusals [] = 0
refusals (connection_refused ∷ es) = suc (refusals es)
refusals (_ ∷ es) = refusals es

-- What comes before the refusal that is one too many, where `k` are let pass.
abbrev pub until : ℕ → List Event → List Event
until k [] = []
until zero (connection_refused ∷ es) = []
until (suc k) (connection_refused ∷ es) = connection_refused ∷ until k es
until k (nothing a n ∷ es) = nothing a n ∷ until k es
until k (line p ∷ es) = line p ∷ until k es

-- The text has no zeros, ends before its newlines, fits into the buffer together with them, and comes
-- from an IPv4 address that inet_ntop(3) can show.
pub record Plain (inet_ntop : ℕ → List ℕ → Option Text) (p : TextPacket) : Type 0 where
  pub nonzero : All (λ x. x ≢ 0) (text p)
  pub ends : p.last ≢ newline
  pub fits : length (bytes p) < max_packet_size
  pub short : p.clientaddr_len < 28
  pub sized : length p.clientaddr ≡ 16
  pub known : inet_ntop af_inet (take 4 (drop 4 p.clientaddr)) ≡ some p.ip

abbrev pub Plainly : (ℕ → List ℕ → Option Text) → Event → Type 0
Plainly inet_ntop (line p) = Plain inet_ntop p
Plainly inet_ntop _ = Unit

module _ (inet_ntop : ℕ → List ℕ → Option Text) where
  server_loop_cons :
      (r : Received) (rs : List Received) (s m : State) (o : Outcome) (lines later : List Line)
      → turn inet_ntop s r ≡ goes m lines
      → server_loop inet_ntop rs m ≡ (o, later)
      → server_loop inet_ntop (r ∷ rs) s ≡ (o, lines ++ later)
  unfolding server_loop after
  server_loop_cons r rs s m o lines later t e = rw (t, e) refl

  server_loop_stops :
      (r : Received) (rs : List Received) (s : State)
      → turn inet_ntop s r ≡ stops
      → server_loop inet_ntop (r ∷ rs) s ≡ (returns 1, [])
  unfolding server_loop after
  server_loop_stops r rs s t = rw t refl

  turn-refused :
      (s : State)
      → suc s.errcount ≤ 3
      → turn inet_ntop s refused ≡ goes (record s { errcount = s.errcount + 1 }) []
  unfolding turn
  turn-refused s le = let t : ltb 3 (s.errcount + 1) ≡ false = ground arith in rw t refl

  turn_too_many : (s : State) → s.errcount ≡ 3 → turn inet_ntop s refused ≡ stops
  unfolding turn
  turn_too_many s e = let t : ltb 3 (s.errcount + 1) ≡ true = ground arith in rw t refl

  turn-empty :
      (s : State) (clientaddr : List ℕ) (n : ℕ)
      → turn inet_ntop s (datagram [] clientaddr n) ≡ goes s (empty ∷ [])
  unfolding turn
  turn-empty s clientaddr n = refl

  -- A run of the loop where `k` refusals are let pass: it waits, or it ended.
  abbrev Waits : ℕ → List Event → Outcome × List Line → Type 0
  Waits k es r = (s : State) × (r ≡ (waits s, all_shown es)) × (refusals es ≤ k)

  abbrev Ended : ℕ → List Event → Outcome × List Line → Type 0
  Ended k es r = (r ≡ (returns 1, all_shown (until k es))) × (k < refusals es)

  server_loop-shown :
      (es : List Event) (s : State) (k : ℕ)
      → All (Plainly inet_ntop) es
      → length s.buffer ≡ max_packet_size
      → s.errcount + k ≡ 3
      → Waits k es (server_loop inet_ntop (map arrival es) s)
        ⊎ Ended k es (server_loop inet_ntop (map arrival es) s)
  unfolding server_loop
  server_loop-shown [] s k plain size le = inl (s, refl, omega arith)
  server_loop-shown (connection_refused ∷ es) s zero plain size le =
      inr
        (server_loop_stops refused (map arrival es) s (turn_too_many s (omega arith)), omega arith)
  server_loop-shown (connection_refused ∷ es) s (suc k) plain size le =
      let m : State = record s { errcount = s.errcount + 1 } in
      let t = turn-refused s (omega arith) in
      elim (server_loop-shown es m k plain.1 size (omega arith)) [
        | inl (s', e, few) ↦ inl (
          s',
          server_loop_cons refused (map arrival es) s m (waits s') [] (all_shown es) t e,
          omega arith,
        )
        | inr (e, many) ↦ inr (
          server_loop_cons refused (map arrival es) s m (returns 1) [] (all_shown (until k es)) t e,
          omega arith,
        )
      ]
  server_loop-shown (nothing a n ∷ es) s k plain size le =
      let t = turn-empty s a n in
      elim (server_loop-shown es s k plain.1 size le) [
        | inl (s', e, few) ↦ inl (
          s',
          server_loop_cons (datagram [] a n) (map arrival es) s s (waits s') (empty ∷ [])
              (all_shown es) t e,
          few,
        )
        | inr (e, many) ↦ inr (
          server_loop_cons (datagram [] a n) (map arrival es) s s (returns 1) (empty ∷ [])
              (all_shown (until k es)) t e,
          many,
        )
      ]
  server_loop-shown (line p ∷ es) s k (ok, plain) size le =
      let (b, t, kept) =
        turn-message inet_ntop s p.clientaddr p.clientaddr_len p.newlines p.last p.body p.ip
          ok.nonzero ok.ends (omega (arith, ok.fits, size)) ok.short ok.sized ok.known in
      let m : State = record s { buffer = b; ipaddr = p.ip } in
      elim (server_loop-shown es m k plain (kept ∙ size) le) [
        | inl (s', e, few) ↦ inl (
          s',
          server_loop_cons (arrival (line p)) (map arrival es) s m (waits s') (shown (line p))
              (all_shown es) t e,
          few,
        )
        | inr (e, many) ↦ inr (
          server_loop_cons (arrival (line p)) (map arrival es) s m (returns 1) (shown (line p))
              (all_shown (until k es)) t e,
          many,
        )
      ]

  -- Where every datagram is empty or a text without zeros, with newlines behind it, that is shorter
  -- than the buffer and comes from an IPv4 address that inet_ntop(3) can show: the server prints a line
  -- for an empty datagram, and two for a text, in their order: the family of its sender, and the text
  -- without the newlines with the sender and the datagram's length, whatever the earlier ones left in the buffer. If ECONNREFUSED comes at most three times
  -- it then waits for the next datagram; else it returns 1 at the fourth, with the lines for what came
  -- before.
  pub server-shown :
      (es : List Event)
      → All (Plainly inet_ntop) es
      → ((s : State) × (server inet_ntop true true (map arrival es) ≡ (waits s, all_shown es))
          × (refusals es ≤ 3))
        ⊎ ((server inet_ntop true true (map arrival es) ≡ (returns 1, all_shown (until 3 es)))
            × (3 < refusals es))
  unfolding server
  server-shown es plain = server_loop-shown es fresh 3 plain refl (omega arith)
