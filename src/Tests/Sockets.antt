-- ===== src/Tests/Sockets.antt =====
-- Transfers, buffer sizes and sockets.
use test.Base.{
  true, ℕ, ◌-◌, ◌+◌, ◌≡◌, refl, none, some, List, [], ◌∷◌, length, arith, if◌then◌else◌, ltb,
}
use test.Base.Int.{ℤ, pos, minus_one}
use test.Net.Address.{s_addr_of, comm_s_multicast_address, comm_s_multicast_address-range}
use test.Net.Os.{eintr, eagain, Taken, took, refused, Given, gave, Poll, ready, timeout}
use test.Net.Tcp.{wrote, comm_tcp_write, comm_tcp_ex_read}
use test.Net.Tcp.Write.{IsWrite, comm_tcp_write-IsWrite}
use test.Net.Tcp.Read.{Filled, comm_tcp_ex_read-Filled}
use test.Net.Udp.{udp_wrote, to_short, comm_udp_write}
use test.Net.Udp.Interrupted.{interrupted, comm_udp_write-interrupted}
use test.Net.Buffer.{comm_increase_buffer_to}
use test.Net.Socket.{
  af_inet, Answers, comm_isocket_creat, comm_make_sock_addr, comm_tcp_connect, intf_tcp,
}

abbrev text : List ℕ
text = 72 ∷ 101 ∷ 108 ∷ 108 ∷ 111 ∷ []

-- three bytes, a signal, a full buffer, the other two
abbrev sending : List (Poll Taken)
sending = ready (took 3) ∷ ready (refused eintr) ∷ ready (refused eagain) ∷ ready (took 9) ∷ []

abbrev receiving : List (Poll Given)
receiving = ready (gave (1 ∷ 2 ∷ [])) ∷ ready (gave (3 ∷ 4 ∷ 5 ∷ [])) ∷ timeout eagain ∷ []

abbrev all_well : Answers
all_well = record { socket = pos 4; nonblock = pos 0; reuse = pos 0; bind = pos 0 }

-- accepts at most 1000 bytes
abbrev up_to_1000 : ℕ → ℤ
up_to_1000 size = if ltb 1000 size then minus_one else pos 0

text_sent : comm_tcp_write (pos 4) text 5 sending ≡ wrote (pos 5) text []
unfolding comm_tcp_write
text_sent = refl

buffer_increased : comm_increase_buffer_to up_to_1000 (some 500) (some 500) 4000 ≡ some 937
unfolding comm_increase_buffer_to
buffer_increased = refl

connected : comm_tcp_connect af_inet (pos 0) none (pos 80) all_well (pos 0) ≡ some (pos 4, [])
unfolding comm_tcp_connect comm_isocket_creat comm_make_sock_addr
connected = refl

comm_tcp_write-IsWrite_example : IsWrite text (comm_tcp_write (pos 4) text (length text) sending)
comm_tcp_write-IsWrite_example = comm_tcp_write-IsWrite (pos 4) text sending

comm_tcp_ex_read-Filled_example : Filled 4 (comm_tcp_ex_read (pos 4) 4 receiving)
comm_tcp_ex_read-Filled_example = comm_tcp_ex_read-Filled (pos 4) 4 receiving

comm_udp_write-interrupted_example :
    comm_udp_write 1000 40000 (interrupted 2 50000 [])
    ≡ udp_wrote (to_short 40000) ((1000 - 2, 40000 + 2) ∷ []) []
comm_udp_write-interrupted_example =
    comm_udp_write-interrupted 2 1000 40000 50000 [] (omega arith) (omega arith) (omega arith)

made : comm_isocket_creat intf_tcp 8554 all_well ≡ (pos 4, [])
unfolding comm_isocket_creat comm_make_sock_addr
made = refl

-- 239.1.2.3
comm_s_multicast_address-range_example :
    comm_s_multicast_address (some (s_addr_of 239 1 2 3)) ≡ true
comm_s_multicast_address-range_example =
    comm_s_multicast_address-range 239 1 2 3 (omega arith) (omega arith) (omega arith) (omega arith)
