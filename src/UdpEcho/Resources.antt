-- ===== src/UdpEcho/Resources.antt =====
-- What `main` of udpecho/main.c opens and closes, starts and joins.
use csockets.Base.{
  ℕ, suc, ◌≤◌, refl, Bool, true, false, Option, none, some, List, [], ◌∷◌, ◌++◌, if◌then◌else◌,
  length, arith,
}
use csockets.Net.Addrinfo.{Addrinfo, Created, not_created, created}
use csockets.Chat.Master.{max_bind_count}
use csockets.Chat.Start.{Text, parse_args, Call}
use csockets.Chat.Start.Sockets.{Balanced}
use csockets.UdpEcho.{create_addrinfo, Answers, bind_loop, Host, with_addrinfo, with_args, main}
use csockets.UdpEcho.Sockets.{Threads, Bound, bind_sock-Bound, Tidy, with_sockets-Tidy}

bind_loop-Bound :
    (system : ℕ → Answers) (n : ℕ) (addr : List Addrinfo) (sfd_arr : List ℕ)
    → length sfd_arr ≤ max_bind_count
    → Bound sfd_arr (bind_loop system n addr sfd_arr)
unfolding bind_loop
bind_loop-Bound system n [] sfd_arr le = record { balanced = λ fd. refl; quiet = refl; few = le }
bind_loop-Bound system n (ca ∷ rest) sfd_arr le =
    bind_sock-Bound (system n).sock (system n).bound (system n).timeout_set sfd_arr _ _ le
      (bind_loop-Bound system (suc n) rest sfd_arr le)
      (λ sfd more. bind_loop-Bound system (suc n) rest (sfd_arr ++ (sfd ∷ [])) more)

with_addrinfo-Tidy : (host : Host) (c : Created) → Tidy (with_addrinfo host c).1
unfolding with_addrinfo
with_addrinfo-Tidy host (not_created ret freed) = record {
  descriptors = λ fd. refl;
  threads = refl;
}
with_addrinfo-Tidy host (created addr) =
    let (sfd_arr, calls) = bind_loop host.answers 0 addr [] in
    with_sockets-Tidy host.threads addr sfd_arr calls
      (bind_loop-Bound host.answers 0 addr [] (omega arith))

with_args-Tidy : (host : Host) (args : Option (Text × List Text)) → Tidy (with_args host args).1
unfolding with_args
with_args-Tidy host none = record { descriptors = λ fd. refl; threads = refl }
with_args-Tidy host (some (port, ips)) =
    with_addrinfo-Tidy host (create_addrinfo (host.getaddrinfo port) ips)

if-Tidy : (b : Bool) (r : ℕ × List Call) → Tidy r.1 → Tidy (if b then r else (1, [])).1
if-Tidy true r t = t
if-Tidy false r t = record { descriptors = λ fd. refl; threads = refl }

-- However udpecho ends, each thread that it started is joined, and each descriptor that it opened is
-- closed, as often as it was opened.
pub main-Tidy :
    (host : Host) (argv : List Text)
    → Threads 0 (main host argv).1 0 × ((fd : ℕ) → Balanced fd 0 (main host argv).1 0)
unfolding main
main-Tidy host argv =
    let t =
      if-Tidy host.ready (with_args host (parse_args argv))
        (with_args-Tidy host (parse_args argv)) in
    (t.threads, t.descriptors)
