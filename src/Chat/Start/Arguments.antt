-- ===== src/Chat/Start/Arguments.antt =====
-- The arguments of `main` of udpchat/src/main.c.
use mathlib.Core.List.{append-nil, append_assoc}
use csockets.Base.{
  suc, ◌+◌, ◌≤◌, ◌≡◌, refl, inl, inr, Bool, true, false, none, some, List, [], ◌∷◌, ◌++◌, leb, ltb,
  if◌then◌else◌, length, arith, Bool-cases, length-append,
}
use csockets.Chat.Master.{max_bind_count}
use csockets.Chat.Start.{Text, parse_ips, with_port, parse_args}

parse_ips-within :
    (args acc : List Text)
    → length acc ≤ 9
    → parse_ips args acc ≡ (if leb (length acc + length args) 9 then some (acc ++ args) else none)
unfolding parse_ips
parse_ips-within [] acc le =
    let t : leb (length acc + 0) 9 ≡ true = ground arith in rw (t, append-nil acc) refl
parse_ips-within (a ∷ args) acc le = elim (Bool-cases (leb 9 (length acc))) [
  | inl e ↦ let t : leb (length acc + suc (length args)) 9 ≡ false = ground arith in rw (e, t) refl
  | inr e ↦
      let size : length (acc ++ (a ∷ [])) ≡ length acc + 1 = length-append acc (a ∷ []) in
      let same : length (acc ++ (a ∷ [])) + length args ≡ length acc + suc (length args) =
        omega (arith, size) in
      rw
        (
          e,
          parse_ips-within args (acc ++ (a ∷ [])) (ground (arith, size)),
          same,
          append_assoc acc (a ∷ []) args,
        )
        refl
]

with_port-if :
    (port : Text) (b : Bool) (ips : List Text)
    → with_port port (if b then some ips else none) ≡ (if b then some (port, ips) else none)
unfolding with_port
with_port-if port true ips = refl
with_port-if port false ips = refl

-- A name, a port and fewer addresses to bind to than MAX_BIND_COUNT are accepted as this port and
-- these addresses. As many as MAX_BIND_COUNT, or more, are refused.
pub parse_args-within :
    (name port : Text) (ips : List Text)
    → parse_args (name ∷ port ∷ ips)
      ≡ (if ltb (length ips) max_bind_count then some (port, ips) else none)
unfolding parse_args
parse_args-within name port [] = refl
parse_args-within name port (ip ∷ ips) =
    let size : 0 + suc (length ips) ≡ suc (length ips) = omega arith in
    let same : leb (suc (length ips)) 9 ≡ ltb (suc (length ips)) 10 = ground arith in
    rw (parse_ips-within (ip ∷ ips) [] (ground arith), size, same) (with_port-if port _ (ip ∷ ips))
