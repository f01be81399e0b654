-- ===== src/Net/Tests.antt =====
-- Addresses at small inputs: comparison and lists of addresses.
use csockets.Base.{ℕ, ◌≡◌, ◌↔◌, refl, Ordering, Option, none, some, List, [], ◌∷◌}
use csockets.Net.{Storage, sockaddr_cmp, memcmp}
use csockets.Net.Clients.{client, client_cmp, sockaddr_cmp-client}
use csockets.Net.Compare.{flip, endpoint, sockaddr_cmp-endpoint}
use csockets.Net.Addrinfo.{
  Addrinfo, Lookup, gai_error, addresses, not_created, create_addrinfo, create_addrinfo-collected,
}

-- Port 4000 of 10.0.0.n, with a byte of padding.
abbrev host : ℕ → ℕ → Storage
host n pad = 2 ∷ 0 ∷ 15 ∷ 160 ∷ 10 ∷ 0 ∷ 0 ∷ n ∷ pad ∷ []

-- Padding makes a difference.
padding : sockaddr_cmp (host 1 0) (host 1 1) 16 ≡ Ordering.lt
unfolding sockaddr_cmp memcmp
padding = refl

sockaddr_cmp-endpoint_example :
    sockaddr_cmp (host 1 0) (host 2 0) 16 ≡ memcmp (endpoint (host 1 0) 16) (endpoint (host 2 0) 16)
sockaddr_cmp-endpoint_example = sockaddr_cmp-endpoint (host 1 0) (host 2 0) 16

sockaddr_cmp-client_example :
    (client_cmp 16 (client 16 (host 1 0)) (client 16 (host 2 0))
      ≡ sockaddr_cmp (host 1 0) (host 2 0) 16)
    × ((sockaddr_cmp (host 1 0) (host 2 0) 16 ≡ Ordering.eq)
        ↔ (client 16 (host 1 0) ≡ client 16 (host 2 0)))
    × (client_cmp 16 (client 16 (host 2 0)) (client 16 (host 1 0))
        ≡ flip (sockaddr_cmp (host 1 0) (host 2 0) 16))
sockaddr_cmp-client_example = sockaddr_cmp-client 16 (host 1 0) (host 2 0)

-- A resolver that knows names of one letter, and gives one address for each.
abbrev info : ℕ → Addrinfo
info n = record {
  ai_family = 2;
  ai_socktype = 2;
  ai_protocol = 17;
  ai_addr = host n 0;
  ai_addrlen = 16;
}

abbrev resolver : Option (List ℕ) → Lookup
resolver none = addresses (info 0 ∷ [])
resolver (some (n ∷ [])) = addresses (info n ∷ [])
resolver (some _) = gai_error 2

create_addrinfo-collected_example :
    create_addrinfo resolver ((1 ∷ []) ∷ [] ∷ (2 ∷ []) ∷ [])
    ≡ (some (1 ∷ []) ∷ some [] ∷ [], not_created 2 (info 1 ∷ []))
create_addrinfo-collected_example =
    create_addrinfo-collected resolver ((1 ∷ []) ∷ [] ∷ (2 ∷ []) ∷ [])
