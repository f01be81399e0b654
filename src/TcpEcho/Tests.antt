-- ===== src/TcpEcho/Tests.antt =====
-- tcpEchoServer at small inputs.
use csockets.Base.{
  leb, if◌then◌else◌, ℕ, ◌+◌, ◌≡◌, refl, some, List, [], ◌∷◌, ◌++◌, map, replicate, arith,
}
use csockets.TcpEcho.{
  len, int_max, got, failed, hangs, breaks, client_handle, stuck, accepting, writes, closes,
  accept_loop,
}
use csockets.TcpEcho.Reading.{overlay}
use csockets.TcpEcho.Serving.{Visitor, client_of, accept_loop-answers}
use csockets.TcpEcho.Stalls.{accept_loop-eof, client_handle-failed}

abbrev junk : List ℕ
junk = replicate 255 0

-- 55 letters "A", then 200 letters "B".
abbrev pieces : List (List ℕ)
pieces = replicate 55 65 ∷ replicate 200 66 ∷ []

-- The first piece is lost under the second.
pieces-overlay : overlay junk pieces ≡ replicate 200 66 ++ replicate 55 0
pieces-overlay = refl

abbrev visitor : Visitor
visitor = record { clientfd = some 4; buffer = junk; pieces = pieces; rest = [] }

accept_loop-answers_example : accept_loop (client_of visitor ∷ client_of visitor ∷ []) ≡ (
  accepting,
  writes (some 4) (replicate 200 66 ++ replicate 55 0)
      ∷ closes (some 4)
      ∷ writes (some 4) (replicate 200 66 ++ replicate 55 0)
      ∷ closes (some 4)
      ∷ [],
)
unfolding accept_loop
accept_loop-answers_example =
    accept_loop-answers (visitor ∷ visitor ∷ []) []
      (record { size = refl; full = refl }, (record { size = refl; full = refl }, tt))

accept_loop-eof_example :
    (client_handle junk (map got (replicate 55 65 ∷ []) ++ replicate 9 (got [])) ≡ hangs 200)
    × (accept_loop (
          record {
            clientfd = some 4;
            buffer = junk;
            reads = map got (replicate 55 65 ∷ []) ++ replicate 9 (got []);
          }
          ∷ [])
        ≡ (stuck, []))
accept_loop-eof_example =
    accept_loop-eof (some 4) junk (replicate 55 65 ∷ []) 9 [] refl (omega arith)

client_handle-failed_example :
    client_handle junk (replicate 3 (failed 0))
    ≡ (if leb (len + 3) int_max then hangs (len + 3) else breaks)
client_handle-failed_example = client_handle-failed junk 3
