-- ===== src/UdpMsg/Receiving.antt =====
-- What `server` of udpmsg/main.old.c prints, and when it ends.
use mathlib.Core.List.{append_assoc}
use csockets.Base.{
  ℕ, zero, suc, ◌+◌, ◌-◌, ◌≤◌, ◌<◌, ◌≡◌, ◌≢◌, refl, sym, ap, ◌∙◌, ◌⊎◌, inl, inr, true, false,
  Option, none, some, List, [], ◌∷◌, ◌++◌, ◌==◌, length, arith, replicate, length-replicate,
  length-append, length-drop, All, drop, take, ltb, leb,
}
use csockets.Net.{af_inet}
use csockets.UdpMsg.{
  newline, Text, State, datagram, Line, from_ipv4, message, goes, undefined, c_string, show_ip,
  read_at, or_stale, terminate, received, print_packet, turn, trim_loop,
}
use csockets.UdpMsg.Trim.{set-append, replicate_last, trim_loop-replicate, trim_loop-newlines}

c_string-append : (cs rest : List ℕ) → All (λ c. c ≢ 0) cs → c_string (cs ++ (0 ∷ rest)) ≡ cs
unfolding c_string
c_string-append [] rest h = refl
c_string-append (c ∷ cs) rest h =
    let t : (c == 0) ≡ false = ground arith in rw t (ap (◌∷◌ c) (c_string-append cs rest h.1))

drop-lt : (n : ℕ) (xs : List ℕ) → n < length xs → (y : ℕ) × (drop n xs ≡ y ∷ drop (suc n) xs)
drop-lt n [] lt = absurd (omega arith)
drop-lt zero (x ∷ xs) lt = (x, refl)
drop-lt (suc n) (x ∷ xs) lt = drop-lt n xs (omega arith)

terminated :
    (packet buffer : List ℕ)
    → length packet < length buffer
    → terminate (received packet buffer) (length packet)
      ≡ some (packet ++ (0 ∷ drop (suc (length packet)) buffer))
unfolding terminate received
terminated packet buffer lt =
    let (y, e) = drop-lt (length packet) buffer lt in
    let size = length-append packet (y ∷ drop (suc (length packet)) buffer) in
    let t : ltb (length packet) (length (packet ++ (y ∷ drop (suc (length packet)) buffer)))
        ≡ true =
      ground (arith, size) in
    rw (e, t)
      (ap some (set-append packet (drop (suc (length packet)) buffer) y 0 (length packet) refl))

turn_packet :
    (inet_ntop : ℕ → List ℕ → Option Text) (s : State) (packet clientaddr : List ℕ)
    (clientaddr_len : ℕ)
    → 1 ≤ length packet
    → length packet < length s.buffer
    → turn inet_ntop s (datagram packet clientaddr clientaddr_len)
      ≡ print_packet s
          (length packet)
          (show_ip inet_ntop clientaddr clientaddr_len s.ipaddr)
          (trim_loop (length packet - 1) (packet ++ (0 ∷ drop (suc (length packet)) s.buffer)))
unfolding turn
turn_packet inet_ntop s [] clientaddr clientaddr_len pos room = absurd (omega arith)
turn_packet inet_ntop s (c ∷ cs) clientaddr clientaddr_len pos room =
    rw (terminated (c ∷ cs) s.buffer room) refl

shown_ip :
    (inet_ntop : ℕ → List ℕ → Option Text) (clientaddr : List ℕ) (clientaddr_len : ℕ)
    (ip stale : Text)
    → clientaddr_len < 28
    → length clientaddr ≡ 16
    → inet_ntop af_inet (take 4 (drop 4 clientaddr)) ≡ some ip
    → show_ip inet_ntop clientaddr clientaddr_len stale ≡ some (ip, from_ipv4)
unfolding show_ip read_at or_stale
shown_ip inet_ntop clientaddr clientaddr_len ip stale four size shown =
    let t : leb 28 clientaddr_len ≡ false = ground arith in
    let r : leb (4 + 4) (length clientaddr) ≡ true = ground arith in rw (t, r, shown) refl

shown_beyond :
    (inet_ntop : ℕ → List ℕ → Option Text) (clientaddr : List ℕ) (stale : Text)
    → length clientaddr ≡ 16
    → show_ip inet_ntop clientaddr 28 stale ≡ none
unfolding show_ip read_at
shown_beyond inet_ntop clientaddr stale size = rw size refl

untrimmed : (s : State) (n : ℕ) (o : Option (Text × Line)) → print_packet s n o none ≡ undefined
unfolding print_packet
untrimmed s n none = refl
untrimmed s n (some (ip, family)) = refl

-- The bytes that stand behind the packet once it is trimmed.
trimmed_text :
    (n c : ℕ) (xs rest : List ℕ)
    → All (λ x. x ≢ 0) (xs ++ (c ∷ []))
    → c_string (xs ++ (c ∷ (replicate n 0 ++ (0 ∷ rest)))) ≡ xs ++ (c ∷ [])
trimmed_text n c xs rest texts =
    ap c_string (
      ap (λ l. xs ++ (c ∷ l)) (sym (replicate_last n 0 rest))
      ∙ sym (append_assoc xs (c ∷ []) (0 ∷ (replicate n 0 ++ rest))))
    ∙ c_string-append (xs ++ (c ∷ [])) (replicate n 0 ++ rest) texts

module _ (inet_ntop : ℕ → List ℕ → Option Text) (s : State) (clientaddr : List ℕ)
    (clientaddr_len : ℕ) where
  -- A datagram of a text without zeros, with newlines behind it, from an IPv4 address that
  -- inet_ntop(3) can show, that is shorter than the buffer: a line with the family is printed, and the
  -- text without these newlines, with the sender and the datagram's length, the loop goes on, and the buffer keeps its
  -- size.
  pub turn-message :
      (n c : ℕ) (xs ip : List ℕ)
      → All (λ x. x ≢ 0) (xs ++ (c ∷ []))
      → c ≢ newline
      → let packet = xs ++ (c ∷ replicate n newline) in
        length packet < length s.buffer
        → clientaddr_len < 28
        → length clientaddr ≡ 16
        → inet_ntop af_inet (take 4 (drop 4 clientaddr)) ≡ some ip
        → (b : List ℕ) × (turn inet_ntop s (datagram packet clientaddr clientaddr_len)
            ≡ goes
                (record s { buffer = b; ipaddr = ip })
                (from_ipv4 ∷ message ip (length packet) (xs ++ (c ∷ [])) ∷ []))
          × (length b ≡ length s.buffer)
  unfolding print_packet
  turn-message n c xs ip texts ne room four size shown =
      let packet = xs ++ (c ∷ replicate n newline) in
      let rest = drop (suc (length packet)) s.buffer in
      let long : length packet ≡ suc (length xs + n) =
        omega (arith, length-append xs (c ∷ replicate n newline), length-replicate n newline) in
      let last : length packet - 1 ≡ length xs + n = omega arith in
      let trim : trim_loop (length packet - 1) (packet ++ (0 ∷ rest))
          ≡ some (xs ++ (c ∷ (replicate n 0 ++ (0 ∷ rest)))) =
        rw (last, append_assoc xs (c ∷ replicate n newline) (0 ∷ rest))
          (trim_loop-replicate n c xs (0 ∷ rest) ne) in
      (
        xs ++ (c ∷ (replicate n 0 ++ (0 ∷ rest))),
        turn_packet inet_ntop s packet clientaddr clientaddr_len (omega arith) room
            ∙ rw
                (
                  trim,
                  shown_ip inet_ntop clientaddr clientaddr_len ip s.ipaddr four size shown,
                  trimmed_text n c xs rest texts,
                )
                refl,
        omega (
          arith,
          length-append xs (c ∷ (replicate n 0 ++ (0 ∷ rest))),
          length-append (replicate n 0) (0 ∷ rest),
          length-replicate {A = ℕ} n 0,
          length-drop (suc (length packet)) s.buffer,
          long,
        ),
      )

  turn_newlines :
      (n : ℕ)
      → suc n < length s.buffer
      → turn inet_ntop s (datagram (replicate (suc n) newline) clientaddr clientaddr_len)
        ≡ undefined
  turn_newlines n room =
      let last : suc n - 1 ≡ n = omega arith in
      turn_packet inet_ntop s (replicate (suc n) newline) clientaddr clientaddr_len (omega arith)
        (omega (arith, length-replicate n newline))
      ∙ rw
          (length-replicate n newline, last, trim_loop-newlines n (0 ∷ drop (suc (suc n)) s.buffer))
          (untrimmed s (suc n) _)

  -- A datagram of newlines only makes the trimming loop leave the buffer, and one from an IPv6 address,
  -- whose length is 28, makes the program read beyond the 16 bytes of `clientaddr`; here the datagram
  -- is neither empty nor as long as the buffer.
  pub turn-undefined :
      (packet : List ℕ)
      → 1 ≤ length packet
      → length packet < length s.buffer
      → length clientaddr ≡ 16
      → ((n : ℕ) × (packet ≡ replicate (suc n) newline)) ⊎ (clientaddr_len ≡ 28)
      → turn inet_ntop s (datagram packet clientaddr clientaddr_len) ≡ undefined
  unfolding print_packet
  turn-undefined packet pos room size (inl (n, e)) =
      rw e (turn_newlines n (omega (arith, rw e at room, length-replicate n newline)))
  turn-undefined packet pos room size (inr six) =
      turn_packet inet_ntop s packet clientaddr clientaddr_len pos room
      ∙ rw (six, shown_beyond inet_ntop clientaddr s.ipaddr size) refl
