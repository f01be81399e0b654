-- ===== src/Chat/Start/Ending.antt =====
-- How `main` of udpchat/src/main.c ends, and what it leaves open.
use csockets.Base.{
  ℕ, suc, ◌≡◌, refl, ◌⊎◌, inl, inr, Bool, true, false, not, ◌&&◌, Option, none, some, List, [], ◌∷◌,
  ◌++◌, leb, ◌==◌, if◌then◌else◌, length, Bool-cases, Option-cases, take,
}
use csockets.Net.{af_inet6}
use csockets.Net.Addrinfo.{Addrinfo, Created, not_created, created}
use csockets.Chat.Master.{max_bind_count}
use csockets.Chat.Start.{
  Text, parse_args, Answers, Call, frees, starts, joins, bind_sock, bind_loop, close_all,
  shutdown_all, Thread, not_started, returned, faulted, Exit, exits, killed, run_thread,
  with_sockets, Host, with_addrinfo, with_args, main,
}
use csockets.Chat.Start.Sockets.{
  Balanced, Balanced-append, count, bind_loop-Balanced, close_all-Balanced, shutdown_all-Balanced,
}

-- The sockets that the master thread was started with.
abbrev pub handed : List Call → List ℕ
handed [] = []
handed (starts xs ∷ cs) = xs
handed (_ ∷ cs) = handed cs

-- The program ends with 0 and all closed; or the thread faults, and what it was given stays open.
abbrev pub WindsUp : ℕ → Thread → Exit × List Call → Type 0
WindsUp fd thread r =
    ((r.0 ≡ exits 0) × Balanced fd 0 r.1 0)
    ⊎ ((n : ℕ) × (thread ≡ faulted n) × (r.0 ≡ killed) × Balanced fd 0 r.1 (count fd (handed r.1)))

handed-bind_loop :
    (system : ℕ → Answers) (n : ℕ) (addr : List Addrinfo) (sfd_arr : List ℕ) (later : List Call)
    → handed ((bind_loop system n addr sfd_arr).1 ++ later) ≡ handed later
unfolding bind_loop bind_sock
handed-bind_loop system n [] sfd_arr later = refl
handed-bind_loop system n (ca ∷ rest) sfd_arr later = elim (Option-cases (system n).sock) [
  | inl e ↦ rw e (handed-bind_loop system (suc n) rest sfd_arr later)
  | inr (sfd, e) ↦
      let skip = handed-bind_loop system (suc n) rest sfd_arr later in
      let keep = handed-bind_loop system (suc n) rest (sfd_arr ++ (sfd ∷ [])) later in
      elim (Bool-cases (ca.ai_family == af_inet6 && not (system n).v6only)) [
        | inl f ↦ rw (e, f) skip
        | inr f ↦ elim (Bool-cases (system n).bound) [
          | inr g ↦ rw (e, f, g) skip
          | inl g ↦ elim (Bool-cases (leb max_bind_count (length sfd_arr))) [
            | inl l ↦ rw (e, f, g, l) refl
            | inr l ↦ rw (e, f, g, l) keep
          ]
        ]
      ]
]

module _ (fd : ℕ) (xs : List ℕ) (addr : List Addrinfo) where
  closes-Balanced : Balanced fd (count fd xs) (close_all xs ++ (frees addr ∷ [])) 0
  closes-Balanced =
      Balanced-append fd (count fd xs) 0 0 (close_all xs) (frees addr ∷ [])
        (close_all-Balanced fd xs) refl

  joined-Balanced :
      Balanced fd (count fd xs) (shutdown_all xs ++ (joins ∷ (close_all xs ++ (frees addr ∷ [])))) 0
  joined-Balanced =
      Balanced-append fd (count fd xs) (count fd xs) 0 (shutdown_all xs) (joins ∷ _)
        (shutdown_all-Balanced fd (count fd xs) xs) closes-Balanced

with_sockets-WindsUp :
    (fd : ℕ) (thread : Thread) (addr : List Addrinfo) (xs : List ℕ) (calls : List Call)
    → Balanced fd 0 calls (count fd xs)
    → ((later : List Call) → handed (calls ++ later) ≡ handed later)
    → WindsUp fd thread (with_sockets thread addr (xs, calls))
unfolding with_sockets run_thread
with_sockets-WindsUp fd thread addr [] calls h k =
    inl (refl, Balanced-append fd 0 0 0 calls (frees addr ∷ []) h refl)
with_sockets-WindsUp fd not_started addr (x ∷ xs) calls h k =
    let ys = x ∷ xs in
    inl (refl, Balanced-append fd 0 (count fd ys) 0 calls _ h (closes-Balanced fd ys addr))
with_sockets-WindsUp fd returned addr (x ∷ xs) calls h k =
    let ys = x ∷ xs in
    inl (
      refl,
      Balanced-append fd 0 (count fd ys) 0 calls (starts ys ∷ _) h (joined-Balanced fd ys addr),
    )
with_sockets-WindsUp fd (faulted n) addr (x ∷ xs) calls h k =
    let ys = x ∷ xs in
    let later = starts ys ∷ shutdown_all (take n ys) in
    inr (
      n,
      refl,
      refl,
      rw (k later) (
          Balanced-append fd 0 (count fd ys) (count fd ys) calls later h
            (shutdown_all-Balanced fd (count fd ys) (take n ys))),
    )

with_addrinfo-WindsUp :
    (fd : ℕ) (host : Host) (c : Created) → WindsUp fd host.thread (with_addrinfo host c)
unfolding with_addrinfo
with_addrinfo-WindsUp fd host (not_created ret freed) = inl (refl, refl)
with_addrinfo-WindsUp fd host (created addr) =
    with_sockets-WindsUp fd host.thread addr (bind_loop host.answers 0 addr []).0
      (bind_loop host.answers 0 addr []).1 (bind_loop-Balanced fd host.answers 0 addr [])
      (handed-bind_loop host.answers 0 addr [])

if-WindsUp :
    (fd : ℕ) (thread : Thread) (b : Bool) (r : Exit × List Call)
    → WindsUp fd thread r
    → WindsUp fd thread (if b then r else (exits 0, []))
if-WindsUp fd thread true r h = h
if-WindsUp fd thread false r h = inl (refl, refl)

with_args-WindsUp :
    (fd : ℕ) (host : Host) (args : Option (Text × List Text))
    → WindsUp fd host.thread (with_args host args)
unfolding with_args
with_args-WindsUp fd host none = inl (refl, refl)
with_args-WindsUp fd host (some (port, ips)) =
    if-WindsUp fd host.thread host.signals _ (with_addrinfo-WindsUp fd host _)

-- Whatever the system answers: the program ends with the status 0, also on an error, and each
-- descriptor is closed as often as it was opened; or the master thread follows NULL, the program is
-- killed, and the descriptors that are still open are those of the sockets that this thread was given.
pub main-WindsUp :
    (fd : ℕ) (host : Host) (argv : List Text) → WindsUp fd host.thread (main host argv)
unfolding main
main-WindsUp fd host argv = with_args-WindsUp fd host (parse_args argv)
