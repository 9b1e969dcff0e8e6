-- ===== src/Tests/Receivers.antt =====
-- The receive loops.
use test.Base.{ℕ, ◌≡◌, refl, some, List, [], ◌∷◌, ◌++◌, replicate, length-replicate, map, arith}
use test.Rtp.Decode.{decode_rtp2h264, fwrite_from, put_start}
use test.Rtp.Header.{nalu_header_of}
use test.Net.Os.{gave}
use test.Tools.ClientList.Reach.{received}
use test.Tools.Receive.{closed, recv_fun}
use test.Tools.Receive.Laws.{recv_fun-packets}

-- a whole unit behind twelve bytes of header
abbrev packet : List ℕ
packet = replicate 12 0 ++ (0x67 ∷ 1 ∷ 2 ∷ [])

abbrev file_of_two : List ℕ
file_of_two = 0 ∷ 0 ∷ 0 ∷ 1 ∷ 0x67 ∷ 1 ∷ 2 ∷ 0 ∷ 0 ∷ 0 ∷ 1 ∷ 0x67 ∷ 1 ∷ 2 ∷ []

two_received : received (some []) (packet ∷ packet ∷ []) ≡ some file_of_two
unfolding decode_rtp2h264 fwrite_from put_start nalu_header_of
two_received = refl

recv_fun-packets_example :
    recv_fun (map gave (packet ∷ packet ∷ []) ++ (gave [] ∷ [])) (replicate 2000 9) []
    ≡ closed file_of_two
recv_fun-packets_example =
    recv_fun-packets (packet ∷ packet ∷ []) (replicate 2000 9) [] file_of_two
      ((omega arith, omega arith), ((omega arith, omega arith), tt))
      (length-replicate {A = ℕ} 2000 9) two_received
