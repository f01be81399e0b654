-- ===== src/UdpMsg/Errors.antt =====
-- The errors that `server` of udpmsg/main.old.c counts.
use csockets.Base.{ℕ, suc, ◌+◌, ◌≤◌, ◌≡◌, refl, ap, true, Option, none, some, List, [], ◌∷◌, arith}
use csockets.UdpMsg.{
  Text, State, Received, datagram, refused, broken, Line, Turn, goes, stops, undefined,
  print_packet, turn, Outcome, waits, after, server_loop, fresh, server,
}

-- How many of the results are ECONNREFUSED.
abbrev pub count_refused : List Received → ℕ
count_refused [] = 0
count_refused (refused ∷ rs) = suc (count_refused rs)
count_refused (_ ∷ rs) = count_refused rs

print_packet-errcount :
    (s s' : State) (n : ℕ) (o : Option (Text × Line)) (t : Option (List ℕ)) (lines : List Line)
    → print_packet s n o t ≡ goes s' lines
    → s.errcount ≡ s'.errcount
unfolding print_packet
print_packet-errcount s s' n none t lines h = ground arith
print_packet-errcount s s' n (some (ip, family)) none lines h = ground arith
print_packet-errcount s s' n (some (ip, family)) (some b) lines h = ground arith

-- The errors are counted over the whole run.
turn-errcount :
    (inet_ntop : ℕ → List ℕ → Option Text) (s s' : State) (r : Received) (lines : List Line)
    → s.errcount ≤ 3
    → turn inet_ntop s r ≡ goes s' lines
    → (s'.errcount ≡ s.errcount + count_refused (r ∷ [])) × (s'.errcount ≤ 3)
unfolding turn
turn-errcount inet_ntop s s' refused lines le h = ground arith
turn-errcount inet_ntop s s' broken lines le h = ground arith
turn-errcount inet_ntop s s' (datagram [] a n) lines le h = ground arith
turn-errcount inet_ntop s s' (datagram (c ∷ cs) a n) lines le h =
    let e = print_packet-errcount s s' _ _ _ lines h in omega (arith, e)

count_refused-cons :
    (r : Received) (rs : List Received)
    → count_refused (r ∷ rs) ≡ count_refused (r ∷ []) + count_refused rs
count_refused-cons refused rs = omega arith
count_refused-cons broken rs = omega arith
count_refused-cons (datagram p a n) rs = omega arith

-- A loop that waits went on after its first turn.
went_on :
    (t : Turn) (next : State → Outcome × List Line) (s' : State)
    → (after t next).0 ≡ waits s'
    → (m : State) × (lines : List Line) × (t ≡ goes m lines) × ((next m).0 ≡ waits s')
unfolding after
went_on (goes m lines) next s' h = (m, lines, refl, h)
went_on stops next s' h = ground arith
went_on undefined next s' h = ground arith

server_loop-errcount :
    (inet_ntop : ℕ → List ℕ → Option Text) (rs : List Received) (s s' : State)
    → s.errcount ≤ 3
    → (server_loop inet_ntop rs s).0 ≡ waits s'
    → (s'.errcount ≡ s.errcount + count_refused rs) × (s'.errcount ≤ 3)
unfolding server_loop
server_loop-errcount inet_ntop [] s s' le h =
    let e : s ≡ s' = ground arith in let n = ap (λ (x : State). x.errcount) e in omega (arith, n)
server_loop-errcount inet_ntop (r ∷ rs) s s' le h =
    let (m, lines, t, k) = went_on (turn inet_ntop s r) (server_loop inet_ntop rs) s' h in
    let one = turn-errcount inet_ntop s m r lines le t in
    let more = server_loop-errcount inet_ntop rs m s' one.1 k in
    omega (arith, one.0, more.0, more.1, count_refused-cons r rs)

-- A server that still waits for datagrams has met ECONNREFUSED at most three times, datagrams in
-- between or not: the fourth ends it.
pub server-errcount :
    (inet_ntop : ℕ → List ℕ → Option Text) (rs : List Received) (s : State)
    → (server inet_ntop true true rs).0 ≡ waits s
    → (s.errcount ≡ count_refused rs) × (count_refused rs ≤ 3)
unfolding server
server-errcount inet_ntop rs s h =
    let (e, le) = server_loop-errcount inet_ntop rs fresh s (omega arith) h in
    (omega (arith, e), omega (arith, e, le))
