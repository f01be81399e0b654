-- ===== src/Net.antt =====
-- udpchat/src/util/net.c: comparison of socket addresses.
pub mod Addrinfo
pub mod Compare
pub mod Clients
mod Tests
use csockets.Base.{
  ℕ, zero, suc, ◌+◌, ◌*◌, ◌≡◌, Bool, true, false, List, [], ◌∷◌, compare, Ordering, ltb, ◌==◌,
  if◌then◌else◌, get_or, take, drop,
}

-- `struct sockaddr_storage` as its bytes, 128 of them, laid out as on Linux with the host's
-- little-endian byte order: family at 0, port at 2, `sin_addr` at 4, `sin6_addr` at 8.
abbrev pub Storage : Type 0
Storage = List ℕ

abbrev pub af_inet : ℕ
af_inet = 2

abbrev pub af_inet6 : ℕ
af_inet6 = 10

-- sizeof(struct sockaddr_in) and sizeof(struct sockaddr_in6)
abbrev pub sockaddr_in_len : ℕ
sockaddr_in_len = 16

abbrev pub sockaddr_in6_len : ℕ
sockaddr_in6_len = 28

abbrev pub host_u16 : Storage → ℕ → ℕ
host_u16 a i = get_or a i 0 + 256 * get_or a (suc i) 0

abbrev pub sin_family : Storage → ℕ
sin_family a = host_u16 a 0

abbrev pub sin_port : Storage → ℕ
sin_port a = host_u16 a 2

-- The sign of memcmp(3) on two byte strings. Every call here is on strings of one length.
unfoldable pub memcmp : List ℕ → List ℕ → Ordering
memcmp [] [] = Ordering.eq
memcmp [] (y ∷ ys) = Ordering.lt
memcmp (x ∷ xs) [] = Ordering.gt
memcmp (x ∷ xs) (y ∷ ys) = elim (compare x y) [
  | Ordering.lt ↦ Ordering.lt
  | Ordering.gt ↦ Ordering.gt
  | Ordering.eq ↦ memcmp xs ys
]

-- The sign of the `int` that sockaddr_cmp returns.
unfoldable pub sockaddr_cmp : Storage → Storage → ℕ → Ordering
sockaddr_cmp addr1 addr2 len =
    if ltb (sin_family addr1) (sin_family addr2)
    then Ordering.lt
    else if ltb (sin_family addr2) (sin_family addr1)
    then Ordering.gt
    else if sin_family addr1 == af_inet
    then (if ltb (sin_port addr1) (sin_port addr2)
        then Ordering.lt
        else if ltb (sin_port addr2) (sin_port addr1)
        then Ordering.gt
        else memcmp (take sockaddr_in_len (drop 4 addr1)) (take sockaddr_in_len (drop 4 addr2)))
    else if sin_family addr1 == af_inet6
    then (if ltb (sin_port addr1) (sin_port addr2)
        then Ordering.lt
        else if ltb (sin_port addr2) (sin_port addr1)
        then Ordering.gt
        else memcmp (take sockaddr_in6_len (drop 8 addr1)) (take sockaddr_in6_len (drop 8 addr2)))
    else memcmp (take len addr1) (take len addr2)
