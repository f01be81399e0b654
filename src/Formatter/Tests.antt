-- ===== src/Formatter/Tests.antt =====
-- The text of a message at small inputs.
use csockets.Base.{ℕ, ◌%◌, ◌≡◌, refl, some, List, [], ◌∷◌, ◌++◌, arith, length}
use csockets.Formatter.{Buffers, initial_buffers, print3, msg_formatter}
use csockets.Formatter.Frame.{frame, leftover, msg_formatter-frame, read_id, msg_formatter-read_id}

-- "hi" and a newline, from user 42.
abbrev hi : List ℕ
hi = 104 ∷ 105 ∷ 10 ∷ []

hi-frame : frame 42 hi 3 ≡ 32 ∷ 52 ∷ 50 ∷ 124 ∷ 32 ∷ 104 ∷ 105 ∷ 10 ∷ []
unfolding frame print3
hi-frame = refl

-- A body without a newline at its end loses its last letter.
cut_frame : frame 42 (104 ∷ 105 ∷ []) 2 ≡ 32 ∷ 52 ∷ 50 ∷ 124 ∷ 32 ∷ 104 ∷ 10 ∷ []
unfolding frame print3
cut_frame = refl

msg_formatter-frame_example :
    msg_formatter initial_buffers 42 7 (some hi) 3
    ≡ some (
      length (frame 42 hi 3),
      record {
        return_buffer =
            frame 42 hi 3 ++ leftover initial_buffers.return_buffer (length (frame 42 hi 3));
        id_buffer = print3 (42 % 999) ++ 0 ∷ [];
      },
    )
unfolding initial_buffers
msg_formatter-frame_example =
    msg_formatter-frame initial_buffers 42 7 3 hi refl (omega arith) (omega arith) (omega arith)

msg_formatter-read_id_example :
    (n : ℕ) × (b : Buffers) × (msg_formatter initial_buffers 999 7 (some hi) 3 ≡ some (n, b))
    × (read_id b.return_buffer ≡ 0)
unfolding initial_buffers
msg_formatter-read_id_example =
    msg_formatter-read_id initial_buffers 999 7 3 hi refl (omega arith) (omega arith) (omega arith)
