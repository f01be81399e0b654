-- ===== src/UdpEcho/Addresses.antt =====
-- create_addrinfo of udpecho/main.c beside that of udpchat/src/util/net.c.
use csockets.Base.{ℕ, ◌≡◌, refl, inl, inr, Option, none, some, List, [], ◌∷◌}
use csockets.Net.Addrinfo.{
  Addrinfo, Lookup, gai_error, addresses, Created, not_created, created, append_last, of_lookup,
  Lookup-cases,
}
use csockets.Net.Addrinfo
use csockets.Chat.Start.{Text}
use csockets.UdpEcho.{addrinfo_loop, any_address, create_addrinfo}

-- The same, with another code for an error.
abbrev pub with_code : ℕ → Created → Created
with_code n (not_created ret freed) = not_created n freed
with_code n (created addr) = created addr

addrinfo_loop-with_code :
    (getaddrinfo : Option Text → Lookup) (ips : List Text) (first : List Addrinfo)
    → addrinfo_loop (λ a. getaddrinfo (some a)) ips first
      ≡ with_code 1 (Addrinfo.addrinfo_loop getaddrinfo ips first).1
unfolding addrinfo_loop Addrinfo.addrinfo_loop
addrinfo_loop-with_code getaddrinfo [] first = refl
addrinfo_loop-with_code getaddrinfo (ip ∷ ips) first = elim (Lookup-cases (getaddrinfo (some ip))) [
  | inl (ret, e) ↦ rw (e, addrinfo_loop, Addrinfo.addrinfo_loop) refl
  | inr (l, e) ↦
      rw (e, addrinfo_loop, Addrinfo.addrinfo_loop)
        (addrinfo_loop-with_code getaddrinfo ips (append_last first l))
]

-- The two programs gather the same addresses, and free the same ones on an error; but udpecho gives
-- the code 1 for every error of getaddrinfo(3), where udpchat passes its code on.
pub create_addrinfo-with_code :
    (getaddrinfo : Option Text → Lookup) (ips : List Text)
    → create_addrinfo getaddrinfo ips ≡ with_code 1 (Addrinfo.create_addrinfo getaddrinfo ips).1
unfolding create_addrinfo any_address Addrinfo.create_addrinfo of_lookup
create_addrinfo-with_code getaddrinfo (ip ∷ ips) = addrinfo_loop-with_code getaddrinfo (ip ∷ ips) []
create_addrinfo-with_code getaddrinfo [] = elim (Lookup-cases (getaddrinfo none)) [
  | inl (ret, e) ↦ rw (e, any_address, of_lookup) refl
  | inr (l, e) ↦ rw (e, any_address, of_lookup) refl
]
