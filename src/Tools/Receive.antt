-- ===== src/Tools/Receive.antt =====
-- The receive loops: `recv_fun` of sample/test_tcp_recv_nal.c and the loop of `main` in
-- sample/test_decode_rtp2h264.c. The receive buffer keeps its old bytes from round to round. An answer
-- is what one call of `recv` returns.
pub mod Laws
use test.Base.{ℕ, Option, none, some, List, [], ◌∷◌, length, take, write_at}
use test.Base.Int.{ℤ, pos, minus_one}
use test.Rtp.Decode.{decode_rtp2h264}
use test.Net.Os.{Given, gave, failed_recv}

-- The peer closed the stream, the call still waits, or undefined behaviour; with the file.
pub data Received : Type 0 where
  closed : List ℕ → Received
  still_open : List ℕ → Received
  recv_fault : Received

-- the next round, unless the decoder ran off its buffer
abbrev pub after_decode : (List ℕ → Received) → Option (List ℕ) → Received
after_decode again none = recv_fault
after_decode again (some file) = again file

-- `recv_fun`: a call that fails is logged, and then decoded with the length -1.
unfoldable pub recv_fun : List Given → List ℕ → List ℕ → Received
recv_fun [] recv_buf file = still_open file
recv_fun (gave [] ∷ os) recv_buf file = closed file
recv_fun (gave (b ∷ bytes) ∷ os) recv_buf file =
    let taken = take 2000 (b ∷ bytes) in
    let filled = write_at 0 taken recv_buf in
    after_decode (recv_fun os filled) (decode_rtp2h264 filled (pos (length taken)) file)
recv_fun (failed_recv e ∷ os) recv_buf file =
    after_decode (recv_fun os recv_buf) (decode_rtp2h264 recv_buf minus_one file)

-- The loop of the UDP receiver: a call that fails goes round again; there is no end.
unfoldable pub recv_datagrams : List Given → List ℕ → List ℕ → Received
recv_datagrams [] buf file = still_open file
recv_datagrams (gave bytes ∷ os) buf file =
    let taken = take 1500 bytes in
    let filled = write_at 0 taken buf in
    after_decode (recv_datagrams os filled) (decode_rtp2h264 filled (pos (length taken)) file)
recv_datagrams (failed_recv e ∷ os) buf file = recv_datagrams os buf file
