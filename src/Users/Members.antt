-- ===== src/Users/Members.antt =====
-- Who is in the table after an update of udpchat/src/users.c, and who was dropped.
use csockets.Base.{
  ℕ, suc, ◌≡◌, refl, ◌⊎◌, true, false, List, [], ◌∷◌, ◌++◌, arith, ◌==◌, if◌then◌else◌, All,
}
use csockets.Heap.{Ptr, null, Info}
use csockets.Net.Compare.{sockaddr_cmp-eq_iff}
use csockets.Users.{Env, is_same, is_expired, is_spam, refresh, refresh_last}
use csockets.Users.Layout.{Cells}
use csockets.Users.Roster.{extend, update_cells}

-- No user of the list has the sender's address.
abbrev pub Unknown : Info → Cells → Type 0
Unknown u [] = Unit {0}
Unknown u ((_, i) ∷ xs) = (is_same i u ≡ false) × Unknown u xs

-- Of the users passed from round `r` on, each judged by its own reading of the clock, those that
-- stay and those that timed out.
unfoldable pub kept : (ℕ → ℕ) → ℕ → ℕ → Cells → Cells
kept time timeout r [] = []
kept time timeout r ((a, i) ∷ xs) =
    if is_expired timeout (time r) i
    then kept time timeout (suc r) xs
    else (a, i) ∷ kept time timeout (suc r) xs

unfoldable pub dropped : (ℕ → ℕ) → ℕ → ℕ → Cells → List Info
dropped time timeout r [] = []
dropped time timeout r ((a, i) ∷ xs) =
    if is_expired timeout (time r) i
    then i ∷ dropped time timeout (suc r) xs
    else dropped time timeout (suc r) xs

-- What becomes of the sender's own entry.
unfoldable pub renewed : (i u : Info) → Cells → Info
renewed i u rest =
    if is_spam i u then i else elim rest [ [] ↦ refresh_last i u | _ ∷ _ ↦ refresh i u ]

module _ {W : Type 0} (env : Env W) (timeout : ℕ) (u : Info) where
  -- A sender that is not in the table is put behind the others, unless malloc(3) fails. Of the
  -- others all but the last are dropped if they timed out; the last one stays in any case.
  pub update_cells-Unknown :
      (r : ℕ) (front : Cells) (a : Ptr) (i : Info)
      → Unknown u front
      → is_same i u ≡ false
      → update_cells env timeout u r (front ++ (a, i) ∷ []) ≡ record {
        code = if env.malloc == null then 1 else 0;
        users = extend env.malloc (kept env.time timeout r front ++ (a, i) ∷ []) u;
        gone = dropped env.time timeout r front;
      }
  unfolding update_cells kept dropped
  update_cells-Unknown r [] a i h e = rw e
  update_cells-Unknown r ((b, j) ∷ []) a i h e =
      ground (arith, update_cells-Unknown (suc r) [] a i tt e)
  update_cells-Unknown r ((b, j) ∷ (c, k) ∷ front) a i h e =
      ground (arith, update_cells-Unknown (suc r) ((c, k) ∷ front) a i h.1 e)

  -- A sender that is in the table keeps its place, those behind it are not looked at, and of those
  -- before it the timed-out are dropped.
  pub update_cells_known :
      (r : ℕ) (front : Cells) (a : Ptr) (i : Info) (rest : Cells)
      → Unknown u front
      → is_same i u ≡ true
      → update_cells env timeout u r (front ++ (a, i) ∷ rest) ≡ record {
        code = if is_spam i u then 1 else 0;
        users = kept env.time timeout r front ++ (a, renewed i u rest) ∷ rest;
        gone = dropped env.time timeout r front;
      }
  unfolding update_cells kept dropped renewed
  update_cells_known r [] a i [] h e = ground arith
  update_cells_known r [] a i (c ∷ rest) h e = ground arith
  update_cells_known r ((b, j) ∷ []) a i rest h e =
      ground (arith, update_cells_known (suc r) [] a i rest tt e)
  update_cells_known r ((b, j) ∷ (c, k) ∷ front) a i rest h e =
      ground (arith, update_cells_known (suc r) ((c, k) ∷ front) a i rest h.1 e)

-- No two users of the list have one address.
abbrev pub IsUnique : Cells → Type 0
IsUnique [] = Unit {0}
IsUnique ((_, i) ∷ xs) = All (λ c. is_same i c.1 ≡ false) xs × IsUnique xs

module _ {W : Type 0} (env : Env W) (timeout : ℕ) (u : Info) where
  -- A user apart from the sender and from all others is so afterwards.
  All-update_cells :
      (i : Info) (r : ℕ) (xs : Cells)
      → is_same i u ≡ false
      → All (λ c. is_same i c.1 ≡ false) xs
      → All (λ c. is_same i c.1 ≡ false) (update_cells env timeout u r xs).users
  unfolding update_cells is_same
  All-update_cells i r [] e h = ground arith
  All-update_cells i r ((a, j) ∷ []) e h = ground arith
  All-update_cells i r ((a, j) ∷ (c, k) ∷ xs) e h =
      ground (arith, All-update_cells i (suc r) ((c, k) ∷ xs) e h.1)

  -- An update lists no client twice, if none was listed twice before.
  pub update_cells-IsUnique :
      (r : ℕ) (xs : Cells) → IsUnique xs → IsUnique (update_cells env timeout u r xs).users
  unfolding update_cells is_same
  update_cells-IsUnique r [] h = ground arith
  update_cells-IsUnique r ((a, i) ∷ []) h = ground arith
  update_cells-IsUnique r ((a, i) ∷ (c, k) ∷ xs) h = ground (
    arith,
    All-update_cells i (suc r) ((c, k) ∷ xs),
    update_cells-IsUnique (suc r) ((c, k) ∷ xs) h.1,
  )

is_same_refl : (u : Info) → is_same u u ≡ true
unfolding is_same
is_same_refl u = rw ((sockaddr_cmp-eq_iff u.addr u.addr u.addr_len).1 refl, is_same)

is_same-refresh : (i u v : Info) → is_same (refresh i u) v ≡ is_same i v
unfolding is_same
is_same-refresh i u v = refl

is_same-refresh_last : (i u v : Info) → is_same (refresh_last i u) v ≡ is_same i v
unfolding is_same
is_same-refresh_last i u v = refl

-- The user has an entry, with the descriptor, the id and the spam window of its latest message.
abbrev pub Listed : Info → Cells → Type 0
Listed u [] = ⊥
Listed u ((_, i) ∷ xs) =
    ((is_same i u ≡ true)
      × (i.recv_fd ≡ u.recv_fd)
      × (i.id ≡ u.id)
      × (i.last_msg_xs ≡ u.last_msg_xs))
    ⊎ Listed u xs

module _ {W : Type 0} (env : Env W) (timeout : ℕ) (u : Info) where
  -- Whenever an update returns 0 the sender is in the table.
  pub update_cells-Listed :
      (r : ℕ) (xs : Cells)
      → (update_cells env timeout u r xs).code ≡ 0
      → Listed u (update_cells env timeout u r xs).users
  unfolding update_cells
  update_cells-Listed r [] h = ground (arith, is_same_refl u)
  update_cells-Listed r ((a, i) ∷ []) h = ground (arith, is_same_refl u, is_same-refresh_last i u u)
  update_cells-Listed r ((a, i) ∷ (c, k) ∷ xs) h =
      ground (arith, is_same-refresh i u u, update_cells-Listed (suc r) ((c, k) ∷ xs))
