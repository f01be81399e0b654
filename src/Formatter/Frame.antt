-- ===== src/Formatter/Frame.antt =====
-- What `msg_formatter` of udpchat/src/msg_formatter.c leaves in its buffer.
use mathlib.Core.List.{append_assoc, append-nil}
use csockets.Base.{
  ℕ, suc, ◌+◌, ◌-◌, ◌*◌, ◌%◌, ◌^◌, ◌≤◌, ◌<◌, ◌≡◌, refl, true, sym, ap, ◌∙◌, none, some, List, [],
  ◌∷◌, ◌++◌, arith, some-pair, Option-cases, inl, inr, ltb, leb, ◌==◌, if◌then◌else◌, length, take,
  drop, length-append, length-take, length-drop, take-append, drop-append, drop-drop, drop_all, min,
}
use csockets.Formatter.{
  Buffers, msg_body_len, msg_total_len, newline, space, min_macro, separator, memcpy, put_char,
  fill, size_minus_one, print3, msg_formatter,
}

-- A copy behind a prefix of the destination.
memcpy-append :
    (p s src : List ℕ) (at n : ℕ)
    → at ≡ length p
    → n ≤ length src
    → n ≤ length s
    → memcpy (p ++ s) at src n ≡ some ((p ++ take n src) ++ drop n s)
unfolding memcpy
memcpy-append p s src at n e h k =
    let room : leb (at + n) (length (p ++ s)) ≡ true = ground (arith, length-append p s) in
    let whole : leb n (length src) ≡ true = ground arith in
    rw (room, whole, take-append p s 0 at (omega arith), drop-append p s n (at + n) (omega arith))
      (simp append_assoc)

-- A write behind a prefix of the destination.
put_char-append :
    (p s : List ℕ) (at i c : ℕ)
    → at ≡ length p + i
    → i < length s
    → put_char (p ++ s) at c ≡ some (p ++ (take i s ++ c ∷ drop (suc i) s))
unfolding put_char
put_char-append p s at i c e h =
    let room : ltb at (length (p ++ s)) ≡ true = ground (arith, length-append p s) in
    rw (room, take-append p s i at e, drop-append p s (suc i) (suc at) (omega arith))
      (ap some (append_assoc p (take i s) _))

length-print3 : (n : ℕ) → length (print3 n) ≡ 3
unfolding print3
length-print3 n = ground arith

-- The text of a message: the id, the separator, the body less its last byte, a newline.
unfoldable pub frame : ℕ → List ℕ → ℕ → List ℕ
frame sender_id body len =
    print3 (sender_id % 999)
    ++ (b'|' ∷ space ∷ (take (min len msg_body_len - 1) body ++ newline ∷ []))

-- What stands behind a text of `n` bytes: older bytes, and a newline at the end of the buffer.
pub leftover : List ℕ → ℕ → List ℕ
leftover r n = take (msg_total_len - 1 - n) (drop n r) ++ newline ∷ []

-- The five writes, with the id printed and the body's length at hand.
fill-leftover :
    (r q body : List ℕ) (m : ℕ)
    → length r ≡ 133
    → length q ≡ 3
    → m < 127
    → m ≤ length body
    → let text = q ++ (b'|' ∷ space ∷ (take m body ++ newline ∷ [])) in
      fill r (q ++ 0 ∷ []) body m ≡ some (text ++ leftover r (length text))
unfolding fill leftover
fill-leftover r q body m lr lq lm lb =
    let s₁ = drop 3 r in
    let s₂ = drop 2 s₁ in
    let s₃ = drop m s₂ in
    let q₂ = q ++ b'|' ∷ space ∷ [] in
    let q₃ = q₂ ++ take m body in
    let q₄ = q₃ ++ newline ∷ [] in
    let n = 6 + m in
    let one : take 3 (q ++ 0 ∷ []) ≡ q = take-append q (0 ∷ []) 0 3 (omega arith) ∙ append-nil q in
    let l₁ : length s₁ ≡ 130 = omega (arith, length-drop 3 r) in
    let l₂ : length s₂ ≡ 128 = omega (arith, length-drop 2 s₁) in
    let l₃ : length s₃ ≡ 128 - m = omega (arith, length-drop m s₂) in
    let k₂ : length q₂ ≡ 5 = omega (arith, length-append q (b'|' ∷ space ∷ [])) in
    let k₃ : length q₃ ≡ 5 + m =
      omega (arith, length-append q₂ (take m body), length-take m body) in
    let k₄ : length q₄ ≡ n = omega (arith, length-append q₃ (newline ∷ [])) in
    let e₁ : memcpy r 0 (q ++ 0 ∷ []) 3 ≡ some (q ++ s₁) =
      memcpy-append [] r (q ++ 0 ∷ []) 0 3 refl (omega (arith, length-append q (0 ∷ [])))
        (omega arith)
      ∙ rw one refl in
    let e₂ : memcpy (q ++ s₁) 3 separator 2 ≡ some (q₂ ++ s₂) =
      memcpy-append q s₁ separator 3 2 (omega arith) (omega arith) (omega arith) in
    let e₃ : memcpy (q₂ ++ s₂) 5 body m ≡ some (q₃ ++ s₃) =
      memcpy-append q₂ s₂ body 5 m (omega arith) lb (omega arith) in
    let e₄ : put_char (q₃ ++ s₃) (5 + m) newline ≡ some (q₄ ++ drop 1 s₃) =
      put_char-append q₃ s₃ (5 + m) 0 newline (omega arith) (omega arith) ∙ simp append_assoc in
    let e₅ : put_char (q₄ ++ drop 1 s₃) 132 newline
        ≡ some (q₄ ++ (take (132 - n) (drop 1 s₃) ++ newline ∷ drop (suc (132 - n)) (drop 1 s₃))) =
      put_char-append q₄ (drop 1 s₃) 132 (132 - n) newline (omega arith)
        (omega (arith, length-drop 1 s₃)) in
    let text = q ++ (b'|' ∷ space ∷ (take m body ++ newline ∷ [])) in
    let same : q₄ ≡ text = simp append_assoc in
    let last_offset : 3 + 2 + m + 1 ≡ n = omega arith in
    let back : drop 1 s₃ ≡ drop n r = simp drop-drop (ap (λ k. drop k r) last_offset) in
    let none_left : drop (suc (132 - n)) (drop 1 s₃) ≡ [] =
      drop_all (suc (132 - n)) (drop 1 s₃) (omega (arith, length-drop 1 s₃)) in
    rw (e₁, e₂, e₃, e₄, e₅, none_left, back, same) (rw (sym (ap length same) ∙ k₄, leftover) refl)

count_lem :
    (len : ℕ) → 1 ≤ len → len < 2 ^ 64 → size_minus_one (min_macro len 127) ≡ min len 127 - 1
count_lem len pos small = ground arith

pub length-frame :
    (sender_id : ℕ) (body : List ℕ) (len : ℕ)
    → 1 ≤ len
    → len ≤ length body
    → length (frame sender_id body len) ≡ 5 + min len msg_body_len
unfolding frame
length-frame sender_id body len pos room =
    let m = min len 127 - 1 in
    omega (
      arith,
      length-append (print3 (sender_id % 999)) (b'|' ∷ space ∷ (take m body ++ newline ∷ [])),
      length-print3 (sender_id % 999),
      length-append (take m body) (newline ∷ []),
      length-take m body,
    )

-- For a buffer of its size and a body of at least one byte that its array holds, no access is out
-- of bounds: the buffer begins with the message, `*len` is the message's length, and behind it
-- stand older bytes and a newline at the end of the buffer.
pub msg_formatter-frame :
    (b : Buffers) (sender_id receiver_id len : ℕ) (body : List ℕ)
    → length b.return_buffer ≡ msg_total_len
    → 1 ≤ len
    → len < 2 ^ 64
    → len ≤ length body
    → let text = frame sender_id body len in
      msg_formatter b sender_id receiver_id (some body) len
      ≡ some (
        length text,
        record {
          return_buffer = text ++ leftover b.return_buffer (length text);
          id_buffer = print3 (sender_id % 999) ++ 0 ∷ [];
        },
      )
unfolding msg_formatter frame
msg_formatter-frame b sender_id receiver_id len body size pos small room =
    let m = min len 127 - 1 in
    rw
      (
        count_lem len pos small,
        fill-leftover b.return_buffer (print3 (sender_id % 999)) body m size
            (length-print3 (sender_id % 999)) (omega arith) (omega arith),
      )
      (some-pair (omega (arith, length-frame sender_id body len pos room)))

pub length-leftover :
    (r : List ℕ) (n : ℕ)
    → length r ≡ msg_total_len
    → n < msg_total_len
    → n + length (leftover r n) ≡ msg_total_len
unfolding leftover
length-leftover r n size h = omega (
  arith,
  length-append (take (132 - n) (drop n r)) (newline ∷ []),
  length-take (132 - n) (drop n r),
  length-drop n r,
)

memcpy_over : (dest src : List ℕ) (at n : ℕ) → length src < n → memcpy dest at src n ≡ none
unfolding memcpy
memcpy_over dest src at n h = ground arith

fill_over :
    (r id_buffer body : List ℕ) (count : ℕ)
    → length body < count
    → fill r id_buffer body count ≡ none
unfolding fill
fill_over r id_buffer body count h = elim (Option-cases (memcpy r 0 id_buffer 3)) [
  | inl e ↦ rw e
  | inr (r₁, e) ↦ rw e (elim (Option-cases (memcpy r₁ 3 separator 2)) [
    | inl e' ↦ rw e'
    | inr (r₂, e') ↦ rw (e', memcpy_over r₂ body 5 count h)
  ])
]

-- An empty body is out of bounds of every array shorter than the largest `size_t`, which is what
-- its length less one comes to.
pub msg_formatter_empty :
    (b : Buffers) (sender_id receiver_id : ℕ) (body : List ℕ)
    → length body < 2 ^ 64 - 1
    → msg_formatter b sender_id receiver_id (some body) 0 ≡ none
unfolding msg_formatter
msg_formatter_empty b sender_id receiver_id body small =
    rw (fill_over b.return_buffer (print3 (sender_id % 999) ++ 0 ∷ []) body (2 ^ 64 - 1) small)

-- The id that the first three bytes of a message show.
abbrev digit_value : ℕ → ℕ
digit_value c = if c == space then 0 else c - b'0'

pub read_id : List ℕ → ℕ
read_id (a ∷ b ∷ c ∷ _) = 100 * digit_value a + 10 * digit_value b + digit_value c
read_id _ = 0

read_id-print3 : (n : ℕ) (rest : List ℕ) → n < 1000 → read_id (print3 n ++ rest) ≡ n
unfolding read_id print3
read_id-print3 n rest h = ground arith

-- For a body of at least one byte and a buffer of the right size, what is written shows the sender's
-- id modulo 999 to the receiver.
pub msg_formatter-read_id :
    (b : Buffers) (sender_id receiver_id len : ℕ) (body : List ℕ)
    → length b.return_buffer ≡ msg_total_len
    → 1 ≤ len
    → len < 2 ^ 64
    → len ≤ length body
    → (n : ℕ) × (b' : Buffers) × (msg_formatter b sender_id receiver_id (some body) len
        ≡ some (n, b'))
      × (read_id b'.return_buffer ≡ sender_id % 999)
unfolding frame
msg_formatter-read_id b sender_id receiver_id len body size pos small within = (
  _,
  _,
  msg_formatter-frame b sender_id receiver_id len body size pos small within,
  rw
      (append_assoc (print3 (sender_id % 999)) _
        (leftover b.return_buffer (length (frame sender_id body len))))
      (read_id-print3 (sender_id % 999) _ (omega arith)),
)
