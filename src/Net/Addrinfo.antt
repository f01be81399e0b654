-- ===== src/Net/Addrinfo.antt =====
-- create_addrinfo and addr2str of udpchat/src/util/net.c. getaddrinfo(3) and inet_ntop(3) are
-- parameters; a list of addrinfo structs is a list, and NULL is the empty one.
use csockets.Base.{
  ℕ, suc, ◌≡◌, refl, ap, ◌∙◌, ◌⊎◌, inl, inr, Option, none, some, List, [], ◌∷◌, ◌++◌, map, ◌==◌,
  if◌then◌else◌, take, drop,
}
use mathlib.Core.List.{append-nil, append_assoc}
use csockets.Net.{Storage, af_inet, af_inet6}

-- struct addrinfo, but for ai_flags, ai_canonname and the link to the next.
pub record Addrinfo : Type 0 where
  pub ai_family : ℕ
  pub ai_socktype : ℕ
  pub ai_protocol : ℕ
  pub ai_addr : Storage
  pub ai_addrlen : ℕ

-- getaddrinfo(3) gives an error that is not zero, or a list.
pub data Lookup : Type 0 where
  gai_error : ℕ → Lookup
  addresses : List Addrinfo → Lookup

-- The result of create_addrinfo: an error and the list that was freed, or `*out`.
pub data Created : Type 0 where
  not_created : ℕ → List Addrinfo → Created
  created : List Addrinfo → Created

-- The walk to the last element of a list, whose link is set.
pub append_last : List Addrinfo → List Addrinfo → List Addrinfo
append_last [] current = current
append_last (x ∷ []) current = x ∷ current
append_last (x ∷ y ∷ ys) current = x ∷ append_last (y ∷ ys) current

-- The nodes that getaddrinfo(3) is called for, in their order, and the result.
abbrev pub Gathered : Type 0
Gathered = List (Option (List ℕ)) × Created

-- One more call, before these.
abbrev pub asks : Option (List ℕ) → Gathered → Gathered
asks node r = (node ∷ r.0, r.1)

-- The loop over the addresses to bind to, with the list of the earlier ones.
unfoldable pub addrinfo_loop : (Option (List ℕ) → Lookup) → List (List ℕ) → List Addrinfo → Gathered
addrinfo_loop getaddrinfo [] first = ([], created first)
addrinfo_loop getaddrinfo (ip ∷ ips) first = asks (some ip) (elim (getaddrinfo (some ip)) [
  | gai_error ret ↦ ([], not_created ret first)
  | addresses current ↦ addrinfo_loop getaddrinfo ips (append_last first current)
])

unfoldable pub of_lookup : Lookup → Created
of_lookup (gai_error ret) = not_created ret []
of_lookup (addresses first) = created first

-- create_addrinfo; the first argument is getaddrinfo(3) at the port and the hints, with `none` for a
-- NULL node.
unfoldable pub create_addrinfo : (Option (List ℕ) → Lookup) → List (List ℕ) → Gathered
create_addrinfo getaddrinfo [] = asks none ([], of_lookup (getaddrinfo none))
create_addrinfo getaddrinfo (ip ∷ ips) = addrinfo_loop getaddrinfo (ip ∷ ips) []

-- addr2str; the first argument is inet_ntop(3), which gets the bytes of the address.
pub addr2str : (ℕ → List ℕ → Option (List ℕ)) → ℕ → Storage → Option (List ℕ)
addr2str inet_ntop af src =
    if af == af_inet
    then inet_ntop af (take 4 (drop 4 src))
    else if af == af_inet6
    then inet_ntop af (take 16 (drop 8 src))
    else none

append_last-++ : (xs ys : List Addrinfo) → append_last xs ys ≡ xs ++ ys
unfolding append_last
append_last-++ [] ys = refl
append_last-++ (x ∷ []) ys = refl
append_last-++ (x ∷ y ∷ xs) ys = rw (append_last-++ (y ∷ xs) ys) refl

pub Lookup-cases :
    (l : Lookup) → ((ret : ℕ) × (l ≡ gai_error ret)) ⊎ ((a : List Addrinfo) × (l ≡ addresses a))
Lookup-cases (gai_error ret) = inl (ret, refl)
Lookup-cases (addresses a) = inr (a, refl)

-- The first error of some lookups, and what was found before it.
abbrev pub first_error : List Lookup → Option ℕ
first_error [] = none
first_error (gai_error ret ∷ ls) = some ret
first_error (addresses l ∷ ls) = first_error ls

abbrev pub found_before : List Lookup → List Addrinfo
found_before [] = []
found_before (gai_error ret ∷ ls) = []
found_before (addresses l ∷ ls) = l ++ found_before ls

abbrev pub collected : Option ℕ → List Addrinfo → Created
collected none addr = created addr
collected (some ret) addr = not_created ret addr

-- How many lookups there are up to the first error, with the one that gives it.
abbrev pub tried : List Lookup → ℕ
tried [] = 0
tried (gai_error ret ∷ ls) = 1
tried (addresses l ∷ ls) = suc (tried ls)

-- The nodes for these addresses: with none, the one that stands for every interface.
abbrev pub nodes : List (List ℕ) → List (Option (List ℕ))
nodes [] = none ∷ []
nodes (ip ∷ ips) = map some (ip ∷ ips)

abbrev pub Collected : List (Option (List ℕ)) → List Lookup → List Addrinfo → Gathered → Type 0
Collected asked ls first r =
    (r.0 ≡ take (tried ls) asked) × (r.1 ≡ collected (first_error ls) (first ++ found_before ls))

addrinfo_loop-Collected :
    (getaddrinfo : Option (List ℕ) → Lookup) (ips : List (List ℕ)) (first : List Addrinfo)
    → Collected
        (map some ips)
        (map getaddrinfo (map some ips))
        first
        (addrinfo_loop getaddrinfo ips first)
unfolding addrinfo_loop
addrinfo_loop-Collected getaddrinfo [] first = (refl, rw (append-nil first) refl)
addrinfo_loop-Collected getaddrinfo (ip ∷ ips) first = elim (Lookup-cases (getaddrinfo (some ip))) [
  | inl (ret, e) ↦ rw (e, append-nil first) (refl, refl)
  | inr (l, e) ↦
      let (asked, result) = addrinfo_loop-Collected getaddrinfo ips (append_last first l) in
      let assoc = append_assoc first l (found_before (map getaddrinfo (map some ips))) in
      rw e (ap (◌∷◌ (some ip)) asked, result ∙ rw (append_last-++ first l, assoc) refl)
]

-- getaddrinfo(3) is called for the addresses in their order, or once with NULL where there is none,
-- up to the first error and no further. Without an error the result is the lists that it gives, one
-- behind another; with one it is that error, and the lists from the calls before it are freed.
pub create_addrinfo-collected :
    (getaddrinfo : Option (List ℕ) → Lookup) (ips : List (List ℕ))
    → let ls = map getaddrinfo (nodes ips) in
      create_addrinfo getaddrinfo ips
      ≡ (take (tried ls) (nodes ips), collected (first_error ls) (found_before ls))
unfolding create_addrinfo of_lookup
create_addrinfo-collected getaddrinfo [] = elim (Lookup-cases (getaddrinfo none)) [
  | inl (ret, e) ↦ rw e refl
  | inr (l, e) ↦ rw (e, append-nil l) refl
]
create_addrinfo-collected getaddrinfo (ip ∷ ips) =
    let (asked, result) = addrinfo_loop-Collected getaddrinfo (ip ∷ ips) [] in cc
