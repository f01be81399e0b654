-- ===== src/UdpEcho/Threads/Order.antt =====
-- In which order `main` of udpecho/main.c gives up its sockets.
use csockets.Base.{ℕ, ◌≤◌, ◌≡◌, refl, ap, ◌⊎◌, inl, inr, arith}
use native.Mathlib.Decide.{dec_lt}
use csockets.Chat.Master.{max_bind_count}
use csockets.UdpEcho.Threads.{
  MainPc, creating, stopping, joining, closing, waiting, finished, absent, ended, State, Reach,
}
use csockets.UdpEcho.Threads.Moves.{joined, Inv}
use csockets.UdpEcho.Threads.Invariant.{Reach-Inv}

-- How many sockets are closed.
abbrev pub closed : ℕ → MainPc → ℕ
closed n (closing k) = k
closed n finished = n
closed n _ = 0

-- No thread runs `rw_loop_func`.
abbrev pub Quiet : State → Type 0
Quiet s = (i : ℕ) → (s.pc i ≡ absent) ⊎ (s.pc i ≡ ended)

joined-Quiet : (n : ℕ) (s : State) → Inv n s → joined s.len s.main ≡ s.len → Quiet s
joined-Quiet n s h all i = elim (dec_lt i s.len) [
  | yes lt ↦ inr (h.over i (omega (arith, all)))
  | no ge ↦ inl (h.missing i (omega arith))
]

none_closed : (n : ℕ) (s : State) (m : MainPc) → s.main ≡ m → Inv n s → (closed n m ≡ 0) ⊎ Quiet s
none_closed n s (creating k) e h = inl refl
none_closed n s (stopping k) e h = inl refl
none_closed n s (joining k) e h = inl refl
none_closed n s waiting e h = inl refl
none_closed n s (closing k) e h = inr (joined-Quiet n s h (ap (joined s.len) e))
none_closed n s finished e h = inr (joined-Quiet n s h (ap (joined s.len) e))

-- For at most MAX_BIND_COUNT sockets, in every order of the steps of `main` and the threads: no socket
-- is closed before each thread that was created has ended, so that no thread ever receives from or
-- sends to a descriptor that is closed.
pub Reach-closed_last :
    {n : ℕ} {s : State} → n ≤ max_bind_count → Reach n s → (closed n s.main ≡ 0) ⊎ Quiet s
Reach-closed_last {n} {s} fits r = none_closed n s s.main refl (Reach-Inv fits r)
