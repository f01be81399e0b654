-- ===== src/Users/Id.antt =====
-- `user_calculate_id` of udpchat/src/users.c: the 16-bit id of a client, from its address.
use csockets.Base.{
  ℕ, zero, suc, ◌+◌, ◌*◌, ◌%◌, ◌^◌, ◌≤◌, ◌<◌, ◌≡◌, ◌≢◌, ◌↔◌, refl, sym, ap, ◌∙◌, true, List, [],
  ◌∷◌, arith, get_or-take, get_or-drop, ◌==◌, if◌then◌else◌, get_or, take, drop, All, Bool-cases,
  inl, inr, Ordering, ==_eq,
}
use csockets.Heap.{Info}
use csockets.Net.{Storage, af_inet, af_inet6, sin_family, sockaddr_cmp}
use csockets.Net.Compare.{sockaddr_cmp-eq_iff, endpoint-bytes}
use csockets.Users.{is_same}

-- `id += b` on a `uint16_t`.
abbrev add16 : ℕ → ℕ → ℕ
add16 id b = (id + b) % 2 ^ 16

-- `id %= 999; if (id == 0) id = 999;`
last_step : ℕ → ℕ
last_step id = if id % 999 == 0 then 999 else id % 999

abbrev sin_addr : Storage → ℕ → ℕ
sin_addr a n = get_or a (4 + n) 0

abbrev sin6_addr : Storage → ℕ → ℕ
sin6_addr a n = get_or a (8 + n) 0

id_inet : (ℕ → ℕ) → ℕ
unfolding last_step
id_inet ip_buffer =
    let id = add16 (add16 0 (ip_buffer 0)) (ip_buffer 1) % 997 in
    last_step (add16 (add16 id (ip_buffer 2)) (ip_buffer 3))

-- The rounds `n`, `n + 1`, … of the loop over an IPv6 address; `k` of them are left.
id_loop : (ℕ → ℕ) → ℕ → ℕ → ℕ → ℕ
id_loop ip_buffer zero n id = id
id_loop ip_buffer (suc k) n id =
    let sum = add16 id (ip_buffer n) in
    id_loop ip_buffer k (suc n) (if n % 2 == 1 then sum % 997 else sum)

id_inet6 : (ℕ → ℕ) → ℕ
unfolding id_loop last_step
id_inet6 ip_buffer = last_step (id_loop ip_buffer 16 0 0)

pub user_calculate_id : Info → ℕ
unfolding id_inet id_inet6
user_calculate_id u =
    if u.addr_family == af_inet
    then id_inet (sin_addr u.addr)
    else if u.addr_family == af_inet6
    then id_inet6 (sin6_addr u.addr)
    else 0

last_step_range : (id : ℕ) → (1 ≤ last_step id) × (last_step id ≤ 999)
unfolding last_step
last_step_range id = ground arith

id_inet_range : (b : ℕ → ℕ) → (1 ≤ id_inet b) × (id_inet b ≤ 999)
unfolding id_inet
id_inet_range b = last_step_range _

id_inet6_range : (b : ℕ → ℕ) → (1 ≤ id_inet6 b) × (id_inet6 b ≤ 999)
unfolding id_inet6
id_inet6_range b = last_step_range _

-- An id is at most 999, and it is 0 exactly for an address of no known family.
pub user_calculate_id_range :
    (u : Info)
    → (user_calculate_id u ≤ 999)
      × ((user_calculate_id u ≡ 0) ↔ ((u.addr_family ≢ af_inet) × (u.addr_family ≢ af_inet6)))
unfolding user_calculate_id
user_calculate_id_range u =
    ground (arith, id_inet_range (sin_addr u.addr), id_inet6_range (sin6_addr u.addr))

-- The same sums over the integers, two bytes at a time and with no wrap-around.
unfoldable pub pair_sums : (ℕ → ℕ) → ℕ → ℕ → ℕ → ℕ
pair_sums b zero m sum = sum
pair_sums b (suc k) m sum = pair_sums b k (suc m) ((sum + b (2 * m) + b (2 * m + 1)) % 997)

unfoldable pub to_id : ℕ → ℕ
to_id sum = elim (sum % 999) [ zero ↦ 999 | suc n ↦ suc n ]

to_id_lem : (sum : ℕ) → last_step sum ≡ to_id sum
unfolding last_step to_id
to_id_lem sum = ground arith

double : ℕ → ℕ
double zero = 0
double (suc k) = suc (suc (double k))

id_loop_zero : (b : ℕ → ℕ) (n sum : ℕ) → id_loop b 0 n sum ≡ sum
unfolding id_loop
id_loop_zero b n sum = refl

-- Two rounds, the first one at an even place.
id_loop_two :
    (b : ℕ → ℕ) (k n sum : ℕ)
    → n % 2 ≡ 0
    → sum < 997
    → b n < 256
    → b (suc n) < 256
    → id_loop b (suc (suc k)) n sum ≡ id_loop b k (suc (suc n)) ((sum + b n + b (suc n)) % 997)
unfolding id_loop
id_loop_two b k n sum even small h₁ h₂ = ap (id_loop b k (suc (suc n))) (ground arith)

id_loop-pair_sums :
    (b : ℕ → ℕ) (k m sum : ℕ)
    → ((n : ℕ) → b n < 256)
    → sum < 997
    → id_loop b (double k) (2 * m) sum ≡ pair_sums b k m sum
unfolding double pair_sums
id_loop-pair_sums b zero m sum bytes small = id_loop_zero b (2 * m) sum
id_loop-pair_sums b (suc k) m sum bytes small =
    let next : suc (suc (2 * m)) ≡ 2 * suc m = omega arith in
    let one : suc (2 * m) ≡ 2 * m + 1 = omega arith in
    id_loop_two b (double k) (2 * m) sum (omega arith) small (bytes _) (bytes _)
    ∙ rw (next, one) (id_loop-pair_sums b k (suc m) _ bytes (omega arith))

id_inet-pair_sums :
    (b : ℕ → ℕ) → ((n : ℕ) → b n < 256) → id_inet b ≡ to_id (pair_sums b 1 0 0 + b 2 + b 3)
unfolding id_inet pair_sums
id_inet-pair_sums b bytes =
    to_id_lem _ ∙ ap to_id (omega (arith, bytes 0, bytes 1, bytes 2, bytes 3))

id_inet6-pair_sums : (b : ℕ → ℕ) → ((n : ℕ) → b n < 256) → id_inet6 b ≡ to_id (pair_sums b 8 0 0)
unfolding id_inet6 double
id_inet6-pair_sums b bytes = to_id_lem _ ∙ ap to_id (id_loop-pair_sums b 8 0 0 bytes (omega arith))

get_or_byte : (xs : List ℕ) (n : ℕ) → All (λ byte. byte < 256) xs → get_or xs n 0 < 256
get_or_byte [] n h = omega arith
get_or_byte (x ∷ xs) zero h = h.0
get_or_byte (x ∷ xs) (suc n) h = get_or_byte xs n h.1

-- Where every element of the address is a byte, the sums of 16 bits are those of unbounded
-- numbers, two bytes at a time: nothing wraps around.
pub user_calculate_id-pair_sums :
    (u : Info)
    → All (λ byte. byte < 256) u.addr
    → user_calculate_id u ≡ (
        if u.addr_family == af_inet
        then to_id (pair_sums (sin_addr u.addr) 1 0 0 + sin_addr u.addr 2 + sin_addr u.addr 3)
        else if u.addr_family == af_inet6
        then to_id (pair_sums (sin6_addr u.addr) 8 0 0)
        else 0)
unfolding user_calculate_id
user_calculate_id-pair_sums u bytes = rw (
  id_inet-pair_sums (sin_addr u.addr) (λ n. get_or_byte u.addr (4 + n) bytes),
  id_inet6-pair_sums (sin6_addr u.addr) (λ n. get_or_byte u.addr (8 + n) bytes),
)

-- The loop reads 16 bytes and nothing else.
id_loop_congr :
    (b c : ℕ → ℕ) (k n id : ℕ)
    → ((j : ℕ) → j < n + k → b j ≡ c j)
    → id_loop b k n id ≡ id_loop c k n id
unfolding id_loop
id_loop_congr b c zero n id e = refl
id_loop_congr b c (suc k) n id e =
    rw (e n (omega arith)) (id_loop_congr b c k (suc n) _ λ j h. e j (omega arith))

-- Bytes of two addresses that agree on a range.
byte_of_take :
    (len off j : ℕ) (a b : Storage)
    → take len (drop off a) ≡ take len (drop off b)
    → j < len
    → get_or a (off + j) 0 ≡ get_or b (off + j) 0
byte_of_take len off j a b e h =
    sym (get_or-drop off j a 0)
    ∙ sym (get_or-take len j (drop off a) 0 h)
    ∙ ap (λ x. get_or x j 0) e
    ∙ get_or-take len j (drop off b) 0 h
    ∙ get_or-drop off j b 0

id_inet_congr : (b c : ℕ → ℕ) → ((j : ℕ) → j < 4 → b j ≡ c j) → id_inet b ≡ id_inet c
unfolding id_inet
id_inet_congr b c e =
    rw (e 0 (omega arith), e 1 (omega arith), e 2 (omega arith), e 3 (omega arith)) refl

id_inet6_congr : (b c : ℕ → ℕ) → ((j : ℕ) → j < 16 → b j ≡ c j) → id_inet6 b ≡ id_inet6 c
unfolding id_inet6
id_inet6_congr b c e = ap last_step (id_loop_congr b c 16 0 0 λ j h. e j (omega arith))

is_same-eq : (u v : Info) → is_same u v ≡ true → sockaddr_cmp u.addr v.addr u.addr_len ≡ Ordering.eq
unfolding is_same
is_same-eq u v h = ground arith

-- Clients that compare equal have one id, where `addr_family` is the family in the address.
pub is_same-user_calculate_id :
    (u v : Info)
    → u.addr_family ≡ sin_family u.addr
    → v.addr_family ≡ sin_family v.addr
    → is_same u v ≡ true
    → user_calculate_id u ≡ user_calculate_id v
unfolding user_calculate_id
is_same-user_calculate_id u v fu fv same =
    let (f, inet, inet6) =
      endpoint-bytes u.addr v.addr u.addr_len
        ((sockaddr_cmp-eq_iff _ _ _).0 (is_same-eq u v same)) in
    let fam : v.addr_family ≡ u.addr_family = ground arith in
    rw fam (elim (Bool-cases (u.addr_family == af_inet)) [
      | inl h ↦ rw h (
          id_inet_congr (sin_addr u.addr) (sin_addr v.addr)
            λ j lt. byte_of_take 16 4 j u.addr v.addr (inet (sym fu ∙ ==_eq _ _ h)) (omega arith))
      | inr h ↦ rw h (elim (Bool-cases (u.addr_family == af_inet6)) [
        | inl k ↦ rw k (
            id_inet6_congr (sin6_addr u.addr) (sin6_addr v.addr) λ j lt.
              byte_of_take 28 8 j u.addr v.addr (inet6 (sym fu ∙ ==_eq _ _ k)) (omega arith))
        | inr k ↦ rw k
      ])
    ])
