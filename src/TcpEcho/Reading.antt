-- ===== src/TcpEcho/Reading.antt =====
-- What `client_handle` of tcpEchoServer/src/main.c sends back.
use csockets.Base.{
  ℕ, zero, suc, ◌+◌, ◌-◌, ◌≤◌, ◌≡◌, refl, ap, ◌∙◌, true, some, List, [], ◌∷◌, ◌++◌, map, leb,
  length, drop, length-append, length-drop, arith,
}
use csockets.TcpEcho.{
  len, Read, got, overwrite, with_buffer, read_loop, returns, send_back, client_handle,
}

-- The bytes of all the pieces.
abbrev pub total : List (List ℕ) → ℕ
total [] = 0
total (c ∷ cs) = length c + total cs

-- Each piece stands at the start of the buffer, over the pieces before it.
abbrev pub overlay : List ℕ → List (List ℕ) → List ℕ
overlay buffer [] = buffer
overlay buffer (c ∷ cs) = overlay (c ++ drop (length c) buffer) cs

length-overwritten :
    (c buffer : List ℕ)
    → length c ≤ length buffer
    → length (c ++ drop (length c) buffer) ≡ length buffer
length-overwritten c buffer le =
    omega (arith, length-append c (drop (length c) buffer), length-drop (length c) buffer)

pub length-overlay :
    (cs : List (List ℕ)) (buffer : List ℕ)
    → total cs ≤ length buffer
    → length (overlay buffer cs) ≡ length buffer
length-overlay [] buffer le = refl
length-overlay (c ∷ cs) buffer le =
    let e = length-overwritten c buffer (omega arith) in
    length-overlay cs (c ++ drop (length c) buffer) (omega (arith, e)) ∙ e

overlay_none : (cs : List (List ℕ)) (buffer : List ℕ) → total cs ≤ 0 → overlay buffer cs ≡ buffer
overlay_none [] buffer le = refl
overlay_none ([] ∷ cs) buffer le = overlay_none cs buffer (omega arith)
overlay_none ((x ∷ c) ∷ cs) buffer le = absurd (omega arith)

overwrite_within :
    (buffer bytes : List ℕ)
    → length bytes ≤ length buffer
    → overwrite buffer bytes ≡ some (bytes ++ drop (length bytes) buffer)
unfolding overwrite
overwrite_within buffer bytes le =
    let t : leb (length bytes) (length buffer) ≡ true = ground arith in rw t

-- Pieces that the loop still waits for.
pub read_loop-got :
    (cs : List (List ℕ)) (k : ℕ) (buffer : List ℕ) (reads : List Read)
    → total cs ≤ k
    → total cs ≤ length buffer
    → read_loop k buffer (map got cs ++ reads) ≡ read_loop (k - total cs) (overlay buffer cs) reads
unfolding read_loop with_buffer
read_loop-got [] k buffer reads le room = let e : k - 0 ≡ k = omega arith in rw e refl
read_loop-got (c ∷ cs) zero buffer reads le room =
    let e : 0 - (length c + total cs) ≡ 0 = omega arith in
    rw (e, overlay_none (c ∷ cs) buffer le) refl
read_loop-got (c ∷ cs) (suc k) buffer reads le room =
    let same : suc k - length c - total cs ≡ suc k - (length c + total cs) = omega arith in
    let size = length-overwritten c buffer (omega arith) in
    rw (overwrite_within buffer c (omega arith)) (
      rw same at (
        read_loop-got cs (suc k - length c) (c ++ drop (length c) buffer) reads (omega arith)
          (omega (arith, size))))

-- Where the results of read(2) amount to 255 bytes, `client_handle` returns with them, however many
-- there are, and sends back 255 bytes: the pieces laid over one another at the start of its buffer,
-- the last one uppermost.
pub client_handle-overlay :
    (buffer : List ℕ) (cs : List (List ℕ)) (reads : List Read)
    → length buffer ≡ len
    → total cs ≡ len
    → (client_handle buffer (map got cs ++ reads) ≡ returns (some (overlay buffer cs)))
      × (length (overlay buffer cs) ≡ len)
unfolding client_handle send_back read_loop
client_handle-overlay buffer cs reads size full = (
  ap send_back (
      rw full at
        (read_loop-got cs len buffer reads (omega (arith, full)) (omega (arith, full, size)))),
  length-overlay cs buffer (omega (arith, full, size)) ∙ size,
)
