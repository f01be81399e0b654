-- ===== src/UdpMsg/Address.antt =====
-- Which addresses `main` and `parse_ip` of udpmsg/main.old.c can store.
use csockets.Base.{
  ℕ, ◌+◌, ◌<◌, ◌≡◌, refl, false, none, List, [], ◌∷◌, ◌++◌, leb, length, arith, replicate,
}
use csockets.Net.{af_inet, af_inet6}
use csockets.UdpMsg.{
  Text, Pton, address, no_address, bad_family, put, stored, parse_ipv6, parse_ipv4, parse_ip,
  same_text, server_mode, sockaddr_len, fill_in, Command, serves, exits, faults, serve_on,
  of_parsed, main,
}

put-out :
    (memory : List ℕ) (at : ℕ) (bytes : List ℕ)
    → length memory < at + length bytes
    → put memory at bytes ≡ none
unfolding put
put-out memory at bytes lt =
    let t : leb (at + length bytes) (length memory) ≡ false = ground arith in rw t

-- The bytes of an address that inet_pton(3) writes.
abbrev pub Sized : ℕ → Pton → Type 0
Sized n (address bytes) = length bytes ≡ n
Sized n _ = Unit {0}

-- The first argument is the answer for the family AF_INET, the second the one for AF_INET6.
abbrev pub command : Pton → Pton → Command
command (address bytes) six = serves af_inet (2 ∷ 0 ∷ 0x27 ∷ 0x24 ∷ (bytes ++ replicate 8 0)) 16
command no_address (address bytes) = faults
command no_address _ = exits 1
command bad_family six = exits 1

of_parsed-command :
    (four six : Pton)
    → Sized 4 four
    → Sized 16 six
    → of_parsed (parse_ipv4 four six (replicate sockaddr_len 0)) ≡ command four six
unfolding parse_ipv4 parse_ipv6 stored of_parsed serve_on fill_in
of_parsed-command (address (a ∷ b ∷ c ∷ d ∷ [])) six size size' = unfold put in refl
of_parsed-command (address []) six size size' = absurd (omega (arith, size))
of_parsed-command (address (a ∷ [])) six size size' = absurd (omega (arith, size))
of_parsed-command (address (a ∷ b ∷ [])) six size size' = absurd (omega (arith, size))
of_parsed-command (address (a ∷ b ∷ c ∷ [])) six size size' = absurd (omega (arith, size))
of_parsed-command (address (a ∷ b ∷ c ∷ d ∷ e ∷ rest)) six size size' = absurd (omega (arith, size))
of_parsed-command no_address (address bytes) size size' =
    rw (put-out (replicate sockaddr_len 0) 8 bytes (omega (arith, size'))) refl
of_parsed-command no_address no_address size size' = refl
of_parsed-command no_address bad_family size size' = refl
of_parsed-command bad_family six size size' = refl

-- In the mode "server", where inet_pton(3) gives addresses of 4 and 16 bytes: with a text that it
-- takes for IPv4 the server is started on this address and port 10020; with one that it takes for
-- IPv6 only, the address is written beyond the end of a `struct sockaddr`; with neither the exit
-- status is 1.
pub main-server :
    (inet_pton : ℕ → Text → Pton) (progname ip : Text) (rest : List Text)
    → Sized 4 (inet_pton af_inet ip)
    → Sized 16 (inet_pton af_inet6 ip)
    → main inet_pton (progname ∷ server_mode ∷ ip ∷ rest)
      ≡ command (inet_pton af_inet ip) (inet_pton af_inet6 ip)
unfolding main same_text parse_ip
main-server inet_pton progname ip rest four six =
    of_parsed-command (inet_pton af_inet ip) (inet_pton af_inet6 ip) four six
