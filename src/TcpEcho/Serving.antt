-- ===== src/TcpEcho/Serving.antt =====
-- What the server of tcpEchoServer/src/main.c does for clients that send enough.
use csockets.Base.{ℕ, ◌≡◌, refl, Option, List, [], ◌∷◌, ◌++◌, map, length, All}
use csockets.TcpEcho.{len, Read, got, Client, Call, writes, closes, sent, after, accept_loop}
use csockets.TcpEcho.Reading.{total, overlay, client_handle-overlay}

-- A client: its descriptor, what the buffer on the stack holds, the pieces that read(2) gives, and
-- what it would give then.
pub record Visitor : Type 0 where
  pub clientfd : Option ℕ
  pub buffer : List ℕ
  pub pieces : List (List ℕ)
  pub rest : List Read

abbrev pub client_of : Visitor → Client
client_of v = record {
  clientfd = v.clientfd;
  buffer = v.buffer;
  reads = map got v.pieces ++ v.rest;
}

-- The pieces amount to the 255 bytes of the buffer.
pub record Complete (v : Visitor) : Type 0 where
  pub size : length v.buffer ≡ len
  pub full : total v.pieces ≡ len

abbrev pub answers : List Visitor → List Call
answers [] = []
answers (v ∷ vs) = writes v.clientfd (overlay v.buffer v.pieces) ∷ closes v.clientfd ∷ answers vs

-- However many clients come whose bytes amount to 255, in however many pieces, `client_handle` ends
-- for each of them: the client is sent its pieces, laid over one another at the start of the buffer,
-- and closed before the next one is accepted; then the server does what it does for the clients
-- behind them.
pub accept_loop-answers :
    (vs : List Visitor) (later : List Client)
    → All Complete vs
    → accept_loop (map client_of vs ++ later)
      ≡ ((accept_loop later).0, answers vs ++ (accept_loop later).1)
unfolding accept_loop after sent
accept_loop-answers [] later h = refl
accept_loop-answers (v ∷ vs) later (ok, h) =
    let (e, size) = client_handle-overlay v.buffer v.pieces v.rest ok.size ok.full in
    rw (e, accept_loop-answers vs later h) refl
