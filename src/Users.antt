-- ===== src/Users.antt =====
-- udpchat/src/users.c: the table of active users, a doubly linked list of heap nodes.
pub mod Layout
pub mod Links
pub mod Surgery
pub mod Roster
pub mod Update
pub mod Traverse
pub mod Behaviour
pub mod Contract
pub mod Members
pub mod Id
mod Tests
use csockets.Base.{
  ℕ, zero, suc, ◌+◌, Bool, true, false, not, ◌&&◌, Ordering, some, ltb, ◌==◌, if◌then◌else◌,
}
use csockets.Net.{sockaddr_cmp}
use csockets.Heap.{
  Ptr, null, Info, User, Cmd, out_of_fuel, pure, ◌>>=◌, ◌>>◌, load, store, set_next, set_prev,
  set_info, clear, free, call,
}

-- `struct user_table`
pub record Table : Type 0 where
  pub start : Ptr
  pub end : Ptr
  pub timeout : ℕ

-- What an update takes from outside: the address that malloc(3) returns (NULL when memory is
-- exhausted), the successive results of time(2), and the caller's callback.
pub record Env (W : Type 0) : Type 0 where
  pub malloc : Ptr
  pub time : ℕ → ℕ
  pub timeout_func : Info → W → W

-- user_table_init
unfoldable pub user_table_init : ℕ → ℕ × Table
user_table_init timeout = (0, record { start = null; end = null; timeout = timeout })

-- `sockaddr_cmp(&p->addr, &user->addr, p->addr_len) == 0`
pub is_same : Info → Info → Bool
is_same p user = elim (sockaddr_cmp p.addr user.addr p.addr_len) [ Ordering.eq ↦ true | _ ↦ false ]

-- `tmp->last_msg + table->timeout < time(NULL)`
pub is_expired : ℕ → ℕ → Info → Bool
is_expired timeout now tmp = ltb (tmp.last_msg + timeout) now

-- The fields that are written when the user is found before the last node,
abbrev pub refresh : Info → Info → Info
refresh tmp user = record tmp {
  last_msg = user.last_msg;
  last_msg_xs = user.last_msg_xs;
  recv_fd = user.recv_fd;
  id = user.id;
}

-- and when it is found at the last node: `p->last_msg = p->last_msg`.
abbrev pub refresh_last : Info → Info → Info
refresh_last p user = record p {
  last_msg = p.last_msg;
  last_msg_xs = user.last_msg_xs;
  recv_fd = user.recv_fd;
  id = user.id;
}

-- The two spam tests.
pub is_spam : Info → Info → Bool
is_spam p user = if p.last_msg == user.last_msg then true else p.last_msg_xs == user.last_msg_xs

module _ {W : Type 0} where
  -- "Found!": write the fields unless it is spam.
  pub found : Table → Ptr → User → Info → Info → Cmd W (ℕ × Table)
  found table p n user new =
      if is_spam n.info user then pure (1, table) else do set_info p new; pure (0, table)

  -- "Remove tmp from list."
  pub unlink : Table → Ptr → Cmd W Table
  unlink table tmp = do
    t ← load tmp
    if not (t.prev == null) && not (t.next == null)
        then (do set_next t.prev t.next; t ← load tmp; set_prev t.next t.prev; pure table)
        else if not (t.prev == null)
        then (do set_next t.prev null; pure (record table { end = t.prev }))
        else if not (t.next == null)
        then (do set_prev t.next null; pure (record table { start = t.next }))
        else pure (record table { start = null; end = null })

  -- Unlink a node and give it back.
  pub remove : Table → Ptr → Cmd W Table
  remove table tmp = do table ← unlink table tmp; clear tmp; free tmp; pure table

  -- The branch of a node before the last one that is not the sender's: if it timed out, tell the
  -- caller and remove it.
  pub sweep : Env W → ℕ → Table → Ptr → User → Cmd W Table
  sweep env now table tmp n =
      if is_expired table.timeout now n.info
      then call env.timeout_func n.info >> remove table tmp
      else pure table

  -- `memcpy(tmp, user, sizeof(*tmp))` and the links of the new last node.
  pub link_last : Table → Ptr → User → Cmd W (ℕ × Table)
  link_last table tmp user = do
    store tmp (some user)
    if table.start == null
        then pure (0, record table { start = tmp; end = tmp })
        else do set_next table.end tmp; set_prev tmp table.end; pure (0, record table { end = tmp })

  -- "If not found, add user to end of list."
  pub add_last : Env W → Table → User → Cmd W (ℕ × Table)
  add_last env table user =
      if env.malloc == null then pure (1, table) else link_last table env.malloc user

  -- What follows the loop, at a node or at NULL.
  pub update_last : Env W → Table → User → Ptr → Cmd W (ℕ × Table)
  update_last env table user p = if p == null then add_last env table user else do
    n ← load p
    if is_same n.info user.info
        then found table p n user.info (refresh_last n.info user.info)
        else add_last env table user

  -- `while (p != NULL && p->next != NULL)`. A round that goes on has called time(2) once.
  pub update_loop : Env W → ℕ → ℕ → Table → User → Ptr → Cmd W (ℕ × Table)
  update_loop env zero round table user p = λ h w. out_of_fuel
  update_loop env (suc k) round table user p =
      if p == null then update_last env table user p else do
        n ← load p
        if n.next == null
            then update_last env table user p
            else if is_same n.info user.info
            then found table p n user.info (refresh n.info user.info)
            else do
              table ← sweep env (env.time round) table p n
              update_loop env k (suc round) table user n.next

  -- user_table_update. The first argument bounds the rounds of the loop.
  pub user_table_update : ℕ → Env W → Table → User → Cmd W (ℕ × Table)
  user_table_update fuel env table user = update_loop env fuel 0 table user table.start

  pub every_loop : (Info → W → W) → ℕ → Ptr → Cmd W ℕ
  every_loop f zero p = λ h w. out_of_fuel
  every_loop f (suc k) p =
      if p == null then pure 0 else do n ← load p; call f n.info; every_loop f k n.next

  -- user_table_every
  pub user_table_every : ℕ → (Info → W → W) → Table → Cmd W ℕ
  user_table_every fuel f table = every_loop f fuel table.start

  pub free_loop : ℕ → Ptr → Cmd W (Unit {0})
  free_loop zero p = λ h w. out_of_fuel
  free_loop (suc k) p = do
    n ← load p
    if n.next == null then (do clear p; free p) else (do clear p; free p; free_loop k n.next)

  -- user_table_free
  pub user_table_free : ℕ → Table → Cmd W Table
  user_table_free fuel table = do
    free_loop fuel table.start
    pure (record { start = null; end = null; timeout = 0 })
