-- ===== src/OldChat/Resources.antt =====
-- What `main` of udpchat/src/main.old.c gives back.
use mathlib.Core.List.{append-nil}
use csockets.Base.{
  ℕ, suc, ◌+◌, ◌≤◌, ◌≡◌, refl, ap, Bool, true, false, not, ◌&&◌, Option, none, some, List, [], ◌∷◌,
  ◌++◌, map, if◌then◌else◌, length, arith,
}
use csockets.Net.Addrinfo.{Addrinfo, Created, not_created, created}
use csockets.Chat.Master.{max_bind_count}
use csockets.Chat.Start.{Text, parse_args, Call}
use csockets.Chat.Start.Sockets.{Balanced}
use csockets.UdpEcho.{create_addrinfo}
use csockets.UdpEcho.Sockets.{Threads, Bound, bind_sock-Bound, Tidy, with_sockets-Tidy}
use csockets.OldChat.{
  Answers, bind_loop, Resource, log_mutex, active_users_lock, active_users, Event, acquires,
  releases, calls, Host, with_addrinfo, with_args, with_signals, with_mutexes, main,
}

abbrev pub calls_of : List Event → List Call
calls_of [] = []
calls_of (calls c ∷ es) = c ∷ calls_of es
calls_of (acquires r ∷ es) = calls_of es
calls_of (releases r ∷ es) = calls_of es

abbrev pub same_resource : Resource → Resource → Bool
same_resource log_mutex log_mutex = true
same_resource active_users_lock active_users_lock = true
same_resource active_users active_users = true
same_resource _ _ = false

-- How often a resource is set up, and how often it is given back.
abbrev pub acquired : Resource → List Event → ℕ
acquired r [] = 0
acquired r (acquires q ∷ es) = (if same_resource r q then 1 else 0) + acquired r es
acquired r (_ ∷ es) = acquired r es

abbrev pub released : Resource → List Event → ℕ
released r [] = 0
released r (releases q ∷ es) = (if same_resource r q then 1 else 0) + released r es
released r (_ ∷ es) = released r es

-- All is set up when the arguments are refused.
abbrev pub refuses : Host → Option (Text × List Text) → Bool
refuses host (some args) = false
refuses host none = host.log_ready && (host.lock_ready && (host.signals_ready && host.queue_ready))

bind_loop-Bound :
    (system : ℕ → Answers) (n : ℕ) (addr : List Addrinfo) (sfd_arr : List ℕ)
    → length sfd_arr ≤ max_bind_count
    → Bound sfd_arr (bind_loop system n addr sfd_arr)
unfolding bind_loop
bind_loop-Bound system n [] sfd_arr le = record { balanced = λ fd. refl; quiet = refl; few = le }
bind_loop-Bound system n (ca ∷ rest) sfd_arr le =
    bind_sock-Bound (system n).sock _ (system n).timeout_set sfd_arr _ _ le
      (bind_loop-Bound system (suc n) rest sfd_arr le)
      (λ sfd more. bind_loop-Bound system (suc n) rest (sfd_arr ++ (sfd ∷ [])) more)

with_addrinfo-Tidy : (host : Host) (c : Created) → Tidy (with_addrinfo host c).1
unfolding with_addrinfo
with_addrinfo-Tidy host (not_created ret freed) = record {
  descriptors = λ fd. refl;
  threads = refl;
}
with_addrinfo-Tidy host (created addr) =
    let (sfd_arr, cs) = bind_loop host.answers 0 addr [] in
    with_sockets-Tidy host.threads addr sfd_arr cs
      (bind_loop-Bound host.answers 0 addr [] (omega arith))

calls_of-map :
    (cs : List Call) (es : List Event) → calls_of (map calls cs ++ es) ≡ cs ++ calls_of es
calls_of-map [] es = refl
calls_of-map (c ∷ cs) es = ap (◌∷◌ c) (calls_of-map cs es)

acquired-map :
    (r : Resource) (cs : List Call) (es : List Event)
    → acquired r (map calls cs ++ es) ≡ acquired r es
acquired-map r [] es = refl
acquired-map r (c ∷ cs) es = acquired-map r cs es

released-map :
    (r : Resource) (cs : List Call) (es : List Event)
    → released r (map calls cs ++ es) ≡ released r es
released-map r [] es = refl
released-map r (c ∷ cs) es = released-map r cs es

abbrev is_none : Option (Text × List Text) → Bool
is_none none = true
is_none (some args) = false

each_once :
    (r : Resource)
    → released r (releases active_users ∷ releases active_users_lock ∷ releases log_mutex ∷ []) + 0
      ≡ 1
each_once log_mutex = refl
each_once active_users_lock = refl
each_once active_users = refl

-- What holds of the events from the arguments on.
after_args :
    (host : Host) (args : Option (Text × List Text)) (r : Resource)
    → let es = (with_args host args).1 in
      (acquired r es ≡ 0)
      × (released r es + (if is_none args then 1 else 0) ≡ 1)
      × Tidy (calls_of es)
unfolding with_args
after_args host none r = (refl, refl, record { descriptors = λ fd. refl; threads = refl })
after_args host (some (port, ips)) r =
    let c = create_addrinfo (host.getaddrinfo port) ips in
    let cs = (with_addrinfo host c).1 in
    let down = releases active_users ∷ releases active_users_lock ∷ releases log_mutex ∷ [] in
    (
      acquired-map r cs down,
      rw (released-map r cs down) (each_once r),
      rw (calls_of-map cs down, append-nil cs) (with_addrinfo-Tidy host c),
    )

main-counts :
    (host : Host) (args : Option (Text × List Text)) (r : Resource)
    → let es = (with_mutexes host args).1 in
      acquired r es ≡ released r es + (if refuses host args then 1 else 0)
unfolding with_mutexes with_signals
main-counts host none log_mutex =
    let (a, b, t) = after_args host none log_mutex in ground (arith, a, b)
main-counts host none active_users_lock =
    let (a, b, t) = after_args host none active_users_lock in ground (arith, a, b)
main-counts host none active_users =
    let (a, b, t) = after_args host none active_users in ground (arith, a, b)
main-counts host (some args) log_mutex =
    let (a, b, t) = after_args host (some args) log_mutex in ground (arith, a, b)
main-counts host (some args) active_users_lock =
    let (a, b, t) = after_args host (some args) active_users_lock in ground (arith, a, b)
main-counts host (some args) active_users =
    let (a, b, t) = after_args host (some args) active_users in ground (arith, a, b)

if-Tidy :
    (b : Bool) (p q : ℕ × List Event)
    → Tidy (calls_of p.1)
    → Tidy (calls_of q.1)
    → Tidy (calls_of (if b then p else q).1)
if-Tidy true p q tp tq = tp
if-Tidy false p q tp tq = tq

main-calls :
    (host : Host) (args : Option (Text × List Text)) → Tidy (calls_of (with_mutexes host args).1)
unfolding with_mutexes with_signals
main-calls host args =
    let quiet : Tidy [] = record { descriptors = λ fd. refl; threads = refl } in
    let (a, b, t) = after_args host args log_mutex in
    if-Tidy (not host.log_ready) _ _ quiet (
      if-Tidy (not host.lock_ready) _ _ quiet
        (if-Tidy (not host.signals_ready) _ _ quiet (if-Tidy (not host.queue_ready) _ _ quiet t)))

-- However the program ends, each of its two mutexes and the queue is given back as often as it was
-- set up, but for one case: where all was set up and the arguments are refused, each is left. And in
-- every case each thread is joined and each descriptor closed as often as it was started or opened.
pub main-released :
    (host : Host) (argv : List Text) (r : Resource)
    → let es = (main host argv).1 in
      (acquired r es ≡ released r es + (if refuses host (parse_args argv) then 1 else 0))
      × Threads 0 (calls_of es) 0
      × ((fd : ℕ) → Balanced fd 0 (calls_of es) 0)
unfolding main
main-released host argv r =
    let t = main-calls host (parse_args argv) in
    (main-counts host (parse_args argv) r, t.threads, t.descriptors)
