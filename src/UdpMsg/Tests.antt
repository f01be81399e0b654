-- ===== src/UdpMsg/Tests.antt =====
-- udpmsg at small inputs.
use csockets.Base.{
  ℕ, ◌≤◌, ◌≡◌, ◌<◌, ◌⊎◌, refl, inl, true, Option, some, List, [], ◌∷◌, ◌==◌, if◌then◌else◌, map,
  replicate, arith,
}
use csockets.Net.{af_inet, af_inet6}
use csockets.UdpMsg.{
  Text, Pton, address, no_address, server_mode, serves, faults, main, State, datagram, empty,
  from_ipv4, message, undefined, turn, waits, returns, server,
}
use csockets.UdpMsg.Address.{command, main-server}
use csockets.UdpMsg.Printing.{
  TextPacket, Event, connection_refused, nothing, line, arrival, Plain, server-shown,
}
use csockets.UdpMsg.Receiving.{turn-undefined}

-- A text is an IPv4 address if it is "4", and an IPv6 address if it is "6".
abbrev pton : ℕ → Text → Pton
pton family (c ∷ []) =
    if family == af_inet
    then (if c == b'4' then address (10 ∷ 0 ∷ 0 ∷ 1 ∷ []) else no_address)
    else if c == b'6'
    then address (replicate 16 1)
    else no_address
pton family _ = no_address

main-server_example :
    main pton ([] ∷ server_mode ∷ (b'4' ∷ []) ∷ [])
    ≡ command (pton af_inet (b'4' ∷ [])) (pton af_inet6 (b'4' ∷ []))
main-server_example = main-server pton [] (b'4' ∷ []) [] refl tt

ipv4_started :
    main pton ([] ∷ server_mode ∷ (b'4' ∷ []) ∷ [])
    ≡ serves af_inet (2 ∷ 0 ∷ 0x27 ∷ 0x24 ∷ 10 ∷ 0 ∷ 0 ∷ 1 ∷ replicate 8 0) 16
ipv4_started = main-server pton [] (b'4' ∷ []) [] refl tt

ipv6_overflow : main pton ([] ∷ server_mode ∷ (b'6' ∷ []) ∷ []) ≡ faults
ipv6_overflow = main-server pton [] (b'6' ∷ []) [] tt refl

abbrev ntop : ℕ → List ℕ → Option Text
ntop family bytes = some (b'x' ∷ [])

abbrev small : State
small = record { buffer = replicate 8 0; ipaddr = []; errcount = 0 }

-- "hi" and two newlines, then "o".
abbrev hi : TextPacket
hi = record {
  body = 104 ∷ [];
  last = 105;
  newlines = 2;
  ip = b'x' ∷ [];
  clientaddr = replicate 16 0;
  clientaddr_len = 16;
}

abbrev o : TextPacket
o = record hi { body = []; last = 111; newlines = 0 }

hi-Plain : Plain ntop hi
hi-Plain = record {
  nonzero = (omega arith, (omega arith, tt));
  ends = omega arith;
  fits = omega arith;
  short = omega arith;
  sized = refl;
  known = refl;
}

o-Plain : Plain ntop o
o-Plain = record {
  nonzero = (omega arith, tt);
  ends = omega arith;
  fits = omega arith;
  short = omega arith;
  sized = refl;
  known = refl;
}

abbrev evening : List Event
evening = line hi ∷ connection_refused ∷ nothing [] 0 ∷ line o ∷ []

server-shown_example :
    ((s : State) × (server ntop true true (map arrival evening) ≡ (
      waits s,
      from_ipv4
          ∷ message (b'x' ∷ []) 4 (104 ∷ 105 ∷ [])
          ∷ empty
          ∷ from_ipv4
          ∷ message (b'x' ∷ []) 1 (111 ∷ [])
          ∷ [],
    ))
      × (1 ≤ 3))
    ⊎ ((server ntop true true (map arrival evening) ≡ (
      returns 1,
      from_ipv4
          ∷ message (b'x' ∷ []) 4 (104 ∷ 105 ∷ [])
          ∷ empty
          ∷ from_ipv4
          ∷ message (b'x' ∷ []) 1 (111 ∷ [])
          ∷ [],
    ))
        × (3 < 1))
server-shown_example = server-shown ntop evening (hi-Plain, (tt, (tt, (o-Plain, tt))))

turn-undefined_example : turn ntop small (datagram (10 ∷ 10 ∷ []) (replicate 16 0) 16) ≡ undefined
turn-undefined_example =
    turn-undefined ntop small (replicate 16 0) 16 (10 ∷ 10 ∷ []) (omega arith) (omega arith) refl
      (inl (1, refl))
