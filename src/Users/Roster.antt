-- ===== src/Users/Roster.antt =====
-- What udpchat/src/users.c promises of the list of users, with no pointers.
use csockets.Base.{ℕ, suc, Bool, List, [], ◌∷◌, ◌++◌, ◌==◌, if◌then◌else◌}
use csockets.Heap.{Ptr, null, Info}
use csockets.Users.{Env, is_same, is_expired, is_spam, refresh, refresh_last}
use csockets.Users.Layout.{Cells}

-- The callback, for one user after the other.
unfoldable pub notify : {W : Type 0} → (Info → W → W) → List Info → W → W
notify f [] w = w
notify f (i ∷ is) w = notify f is (f i w)

-- The code that is returned, the users that stay, and those that timed out.
pub record Outcome : Type 0 where
  pub code : ℕ
  pub users : Cells
  pub gone : List Info

abbrev pub outcome : ℕ → Cells → Outcome
outcome code users = record { code = code; users = users; gone = [] }

abbrev pub extend : Ptr → Cells → Info → Cells
extend a xs u = if a == null then xs else xs ++ (a, u) ∷ []

abbrev pub added : Ptr → Cells → Info → Outcome
added a xs u = outcome (if a == null then 1 else 0) (extend a xs u)

-- A known user: spam leaves it as it is.
abbrev pub answered : Ptr → (i new u : Info) → Cells → Outcome
answered a i new u rest =
    if is_spam i u then outcome 1 ((a, i) ∷ rest) else outcome 0 ((a, new) ∷ rest)

abbrev pub passed : Bool → Ptr → Info → Outcome → Outcome
passed expired a i o =
    if expired then record o { gone = i ∷ o.gone } else record o { users = (a, i) ∷ o.users }

-- The list after an update by `u`, whose rounds start at `r`.
unfoldable pub update_cells : {W : Type 0} → Env W → ℕ → Info → ℕ → Cells → Outcome
update_cells env timeout u r [] = added env.malloc [] u
update_cells env timeout u r ((a, i) ∷ []) =
    if is_same i u then answered a i (refresh_last i u) u [] else added env.malloc ((a, i) ∷ []) u
update_cells env timeout u r ((a, i) ∷ c ∷ rest) =
    let o = update_cells env timeout u (suc r) (c ∷ rest) in
    if is_same i u
    then answered a i (refresh i u) u (c ∷ rest)
    else passed (is_expired timeout (env.time r) i) a i o
