-- ===== src/UdpEcho/Sockets.antt =====
-- The sockets and threads of `main` of udpecho/main.c, from the first socket to the end.
use csockets.Base.{
  ℕ, zero, suc, ◌+◌, ◌≤◌, ◌≡◌, refl, inl, inr, Bool, true, false, Option, none, some, List, [], ◌∷◌,
  ◌++◌, leb, length, arith, Bool-cases, length-append,
}
use csockets.Net.Addrinfo.{Addrinfo}
use csockets.Chat.Master.{max_bind_count}
use csockets.Chat.Start.{Call, opens, closes, shuts_down, frees, starts, joins}
use csockets.Chat.Start.Sockets.{Balanced, Balanced-append, count, count-append}
use csockets.UdpEcho.{bind_sock, thread_loop, join_all, close_sockets, with_threads, with_sockets}

-- How many threads are started, and how many are joined.
abbrev pub started : List Call → ℕ
started [] = 0
started (starts x ∷ cs) = suc (started cs)
started (_ ∷ cs) = started cs

abbrev pub joined_count : List Call → ℕ
joined_count [] = 0
joined_count (joins ∷ cs) = suc (joined_count cs)
joined_count (_ ∷ cs) = joined_count cs

-- How the calls change the number of running threads.
abbrev pub Threads : ℕ → List Call → ℕ → Type 0
Threads before cs after = before + started cs ≡ after + joined_count cs

started-append : (cs ds : List Call) → started (cs ++ ds) ≡ started cs + started ds
started-append [] ds = omega arith
started-append (opens x ∷ cs) ds = started-append cs ds
started-append (closes x ∷ cs) ds = started-append cs ds
started-append (shuts_down x ∷ cs) ds = started-append cs ds
started-append (frees x ∷ cs) ds = started-append cs ds
started-append (starts x ∷ cs) ds = omega (arith, started-append cs ds)
started-append (joins ∷ cs) ds = started-append cs ds

joined_count-append :
    (cs ds : List Call) → joined_count (cs ++ ds) ≡ joined_count cs + joined_count ds
joined_count-append [] ds = omega arith
joined_count-append (opens x ∷ cs) ds = joined_count-append cs ds
joined_count-append (closes x ∷ cs) ds = joined_count-append cs ds
joined_count-append (shuts_down x ∷ cs) ds = joined_count-append cs ds
joined_count-append (frees x ∷ cs) ds = joined_count-append cs ds
joined_count-append (starts x ∷ cs) ds = joined_count-append cs ds
joined_count-append (joins ∷ cs) ds = omega (arith, joined_count-append cs ds)

Threads-append :
    (a b c : ℕ) (cs ds : List Call) → Threads a cs b → Threads b ds c → Threads a (cs ++ ds) c
Threads-append a b c cs ds h k =
    rw (started-append cs ds, joined_count-append cs ds) (omega (arith, h, k))

-- What holds of the sockets and calls of a loop that binds.
pub record Bound (before : List ℕ) (r : List ℕ × List Call) : Type 0 where
  pub balanced : (fd : ℕ) → Balanced fd (count fd before) r.1 (count fd r.0)
  pub quiet : Threads 0 r.1 0
  pub few : length r.0 ≤ max_bind_count

-- A socket that is not kept.
skipped :
    (sfd : ℕ) (sfd_arr : List ℕ) (r : List ℕ × List Call)
    → Bound sfd_arr r
    → Bound sfd_arr (r.0, opens sfd ∷ closes sfd ∷ r.1)
skipped sfd sfd_arr r b = record {
  balanced = λ fd. omega (arith, b.balanced fd);
  quiet = b.quiet;
  few = b.few;
}

pub bind_sock-Bound :
    (sock : Option ℕ) (bound timeout_set : Bool) (sfd_arr : List ℕ) (skip : List ℕ × List Call)
    (keep : ℕ → List ℕ × List Call)
    → length sfd_arr ≤ max_bind_count
    → Bound sfd_arr skip
    → ((sfd : ℕ)
        → length (sfd_arr ++ (sfd ∷ [])) ≤ max_bind_count
        → Bound (sfd_arr ++ (sfd ∷ [])) (keep sfd))
    → Bound sfd_arr (bind_sock sock bound timeout_set sfd_arr skip keep)
unfolding bind_sock
bind_sock-Bound none bound timeout_set sfd_arr skip keep le s k = s
bind_sock-Bound (some sfd) false timeout_set sfd_arr skip keep le s k = skipped sfd sfd_arr skip s
bind_sock-Bound (some sfd) true false sfd_arr skip keep le s k = skipped sfd sfd_arr skip s
bind_sock-Bound (some sfd) true true sfd_arr skip keep le s k =
    elim (Bool-cases (leb max_bind_count (length sfd_arr))) [
      | inl l ↦ rw l (record { balanced = λ fd. omega arith; quiet = refl; few = le })
      | inr l ↦
          let kept = k sfd (ground (arith, length-append sfd_arr (sfd ∷ []))) in
          rw l (record {
            balanced = λ fd. omega (arith, kept.balanced fd, count-append fd sfd_arr (sfd ∷ []));
            quiet = kept.quiet;
            few = kept.few;
          })
    ]

thread_loop-Threads :
    (system : ℕ → Bool) (n : ℕ) (sfds : List ℕ)
    → n + length sfds ≤ max_bind_count
    → Threads n (thread_loop system n sfds).2 (thread_loop system n sfds).1
unfolding thread_loop
thread_loop-Threads system n [] le = refl
thread_loop-Threads system n (sfd ∷ rest) le =
    let later = thread_loop-Threads system (suc n) rest (omega arith) in
    let some_left : leb max_bind_count n ≡ false = ground arith in
    elim (Bool-cases (system n)) [
      | inl e ↦ rw (e, some_left) (omega (arith, later))
      | inr e ↦ rw e refl
    ]

thread_loop-Balanced :
    (fd k : ℕ) (system : ℕ → Bool) (n : ℕ) (sfds : List ℕ)
    → Balanced fd k (thread_loop system n sfds).2 k
unfolding thread_loop
thread_loop-Balanced fd k system n [] = refl
thread_loop-Balanced fd k system n (sfd ∷ rest) = elim (Bool-cases (system n)) [
  | inl e ↦ elim (Bool-cases (leb max_bind_count n)) [
    | inl l ↦ rw (e, l) refl
    | inr l ↦ rw (e, l) (thread_loop-Balanced fd k system (suc n) rest)
  ]
  | inr e ↦ rw e refl
]

join_all-Threads : (n : ℕ) → Threads n (join_all n) 0
unfolding join_all
join_all-Threads zero = refl
join_all-Threads (suc n) = omega (arith, join_all-Threads n)

join_all-Balanced : (fd k n : ℕ) → Balanced fd k (join_all n) k
unfolding join_all
join_all-Balanced fd k zero = refl
join_all-Balanced fd k (suc n) = join_all-Balanced fd k n

close_sockets-Threads : (n : ℕ) (xs : List ℕ) → Threads n (close_sockets xs) n
unfolding close_sockets
close_sockets-Threads n [] = refl
close_sockets-Threads n (x ∷ xs) = close_sockets-Threads n xs

close_sockets-Balanced : (fd : ℕ) (xs : List ℕ) → Balanced fd (count fd xs) (close_sockets xs) 0
unfolding close_sockets
close_sockets-Balanced fd [] = refl
close_sockets-Balanced fd (x ∷ xs) = omega (arith, close_sockets-Balanced fd xs)

-- What holds of the calls of the whole program.
pub record Tidy (calls : List Call) : Type 0 where
  pub descriptors : (fd : ℕ) → Balanced fd 0 calls 0
  pub threads : Threads 0 calls 0

pub with_sockets-Tidy :
    (threads : ℕ → Bool) (addr : List Addrinfo) (xs : List ℕ) (calls : List Call)
    → Bound [] (xs, calls)
    → Tidy (with_sockets threads addr (xs, calls)).1
unfolding with_sockets with_threads
with_sockets-Tidy threads addr [] calls b = record {
  descriptors = λ fd. Balanced-append fd 0 0 0 calls (frees addr ∷ []) (b.balanced fd) refl;
  threads = Threads-append 0 0 0 calls (frees addr ∷ []) b.quiet refl;
}
with_sockets-Tidy threads addr (x ∷ xs) calls b =
    let sfds = x ∷ xs in
    let t = thread_loop threads 0 sfds in
    let down = join_all t.1 ++ close_sockets sfds in
    record {
      descriptors = λ fd.
          Balanced-append fd 0 (count fd sfds) 0 calls ((t.2 ++ down) ++ (frees addr ∷ []))
            (b.balanced fd)
            (Balanced-append fd (count fd sfds) 0 0 (t.2 ++ down) (frees addr ∷ [])
              (Balanced-append fd (count fd sfds) (count fd sfds) 0 t.2 down
                (thread_loop-Balanced fd (count fd sfds) threads 0 sfds)
                (Balanced-append fd (count fd sfds) (count fd sfds) 0 (join_all t.1)
                  (close_sockets sfds) (join_all-Balanced fd (count fd sfds) t.1)
                  (close_sockets-Balanced fd sfds)))
              refl);
      threads = Threads-append 0 0 0 calls ((t.2 ++ down) ++ (frees addr ∷ [])) b.quiet (
          Threads-append 0 0 0 (t.2 ++ down) (frees addr ∷ [])
            (Threads-append 0 t.1 0 t.2 down
              (thread_loop-Threads threads 0 sfds (omega (arith, b.few)))
              (Threads-append t.1 0 0 (join_all t.1) (close_sockets sfds) (join_all-Threads t.1)
                (close_sockets-Threads 0 sfds)))
            refl);
    }
