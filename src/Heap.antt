-- ===== src/Heap.antt =====
-- The memory that udpchat/src/users.c works on: `struct user` nodes at addresses, and commands
-- that read and write them beside a state `W` that only callbacks change.
pub mod Commands
use csockets.Base.{ℕ, ◌≡◌, Bool, Option, none, some, ◌==◌, if◌then◌else◌, []}
use csockets.Net.{Storage}

abbrev pub Ptr : Type 0
Ptr = ℕ

abbrev pub null : Ptr
null = 0

-- `struct user` of udpchat/src/users.h less its links. A `time_t` counts seconds since 1970.
pub record Info : Type 0 where
  pub addr : Storage
  pub addr_len : ℕ
  pub addr_family : ℕ
  pub recv_fd : ℕ
  pub id : ℕ
  pub last_msg : ℕ
  pub last_msg_xs : ℕ

-- `struct user`
pub record User : Type 0 where
  pub info : Info
  pub open info use *
  pub next : Ptr
  pub prev : Ptr

abbrev pub user : Info → (next prev : Ptr) → User
user i q p = record { info = i; next = q; prev = p }

-- What memset(3) to 0 leaves of a node.
abbrev pub zero_info : Info
zero_info = record {
  addr = [];
  addr_len = 0;
  addr_family = 0;
  recv_fd = 0;
  id = 0;
  last_msg = 0;
  last_msg_xs = 0;
}

abbrev pub Heap : Type 0
Heap = Ptr → Option User

unfoldable pub write : Heap → Ptr → Option User → Heap
write h p c a = if a == p then c else h a

-- A run ends with a value, with an access that C leaves undefined, or out of fuel.
pub data Run (W A : Type 0) : Type 0 where
  ok : A → Heap → W → Run W A
  fault : Run W A
  out_of_fuel : Run W A

abbrev pub Cmd : Type 0 → Type 0 → Type 0
Cmd W A = Heap → W → Run W A

abbrev pub pure : {W A : Type 0} → A → Cmd W A
pure = ok

abbrev pub and_then : {W A B : Type 0} → Run W A → (A → Cmd W B) → Run W B
and_then (ok a h w) k = k a h w
and_then fault k = fault
and_then out_of_fuel k = out_of_fuel

infixl 5 ◌>>=◌ ◌>>◌
abbrev pub ◌>>=◌ : {W A B : Type 0} → Cmd W A → (A → Cmd W B) → Cmd W B
m >>= k = λ h w. and_then (m h w) k

abbrev pub ◌>>◌ : {W A B : Type 0} → Cmd W A → Cmd W B → Cmd W B
m >> n = m >>= λ _. n

-- `*p`: undefined at NULL and at an address that holds no node.
unfoldable pub load : {W : Type 0} → Ptr → Cmd W User
load p h w = if p == null then fault else elim (h p) [ none ↦ fault | some n ↦ ok n h w ]

-- The raw write, which also allocates (`some`) and gives back (`none`).
abbrev pub store : {W : Type 0} → Ptr → Option User → Cmd W (Unit {0})
store p c h w = ok tt (write h p c) w

-- `p->next = q`
unfoldable pub set_next : {W : Type 0} → Ptr → Ptr → Cmd W (Unit {0})
set_next p q = do n ← load p; store p (some (record n { next = q }))

-- `p->prev = q`
unfoldable pub set_prev : {W : Type 0} → Ptr → Ptr → Cmd W (Unit {0})
set_prev p q = do n ← load p; store p (some (record n { prev = q }))

-- Assignments to data fields of `*p`.
unfoldable pub set_info : {W : Type 0} → Ptr → Info → Cmd W (Unit {0})
set_info p i = do n ← load p; store p (some (record n { info = i }))

-- `memset(p, 0, sizeof(*p))`
unfoldable pub clear : {W : Type 0} → Ptr → Cmd W (Unit {0})
clear p = load p >> store p (some (user zero_info null null))

unfoldable pub free : {W : Type 0} → Ptr → Cmd W (Unit {0})
free p = load p >> store p none

-- A callback is handed the data of a user and changes the state beside the heap.
abbrev pub call : {W : Type 0} → (Info → W → W) → Info → Cmd W (Unit {0})
call f i h w = ok tt h (f i w)
