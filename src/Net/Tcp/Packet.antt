-- ===== src/Net/Tcp/Packet.antt =====
-- `comm_tcp_write_packet` ends, and what it counts was sent.
use test.Base.{
  ℕ, zero, suc, ◌+◌, ◌-◌, ◌<◌, inl, inr, Option, none, some, List, [], ◌++◌, ◌==◌, drop, arith,
  Bool-cases,
}
use test.Base.Int.{ℤ, pos, negsuc}
use test.Net.Os.{Taken, Poll}
use test.Net.Tcp.{Wrote, wrote, write_waits, after_write, packet_loop, comm_tcp_write_packet}

-- The call returned or it waits: the fuel did not run out.
abbrev pub Ends : Option Wrote → Type 0
Ends none = ⊥
Ends (some w) = Unit

after_write-Ends :
    (again : ℕ → List ℕ → ℕ → List ℕ → List (Poll Taken) → Option Wrote) (total : ℕ) (buf : List ℕ)
    (size : ℕ) (sent : List ℕ) (w : Wrote)
    → ((total' : ℕ) (buf' : List ℕ) (size' : ℕ) (sent' : List ℕ) (os : List (Poll Taken))
        → size' < size
        → Ends (again total' buf' size' sent' os))
    → 0 < size
    → Ends (after_write again total buf size sent w)
unfolding after_write
after_write-Ends again total buf size sent (write_waits more) h some_left = tt
after_write-Ends again total buf size sent (wrote (negsuc n) more os) h some_left = tt
after_write-Ends again total buf size sent (wrote (pos zero) more os) h some_left = tt
after_write-Ends again total buf size sent (wrote (pos (suc n)) more os) h some_left =
    h (total + suc n) (drop (suc n) buf) (size - suc n) (sent ++ more) os (omega arith)

packet_loop-Ends :
    (fuel : ℕ) (fd : ℤ) (max_mtu total : ℕ) (buf : List ℕ) (size : ℕ) (sent : List ℕ)
    (os : List (Poll Taken))
    → size < fuel
    → Ends (packet_loop fuel fd max_mtu total buf size sent os)
unfolding packet_loop
packet_loop-Ends zero fd max_mtu total buf size sent os enough = absurd (omega arith)
packet_loop-Ends (suc fuel) fd max_mtu total buf size sent os enough =
    elim (Bool-cases (size == 0)) [
      | inl over ↦ rw over tt
      | inr more ↦ rw more (
          after_write-Ends (packet_loop fuel fd max_mtu) total buf size sent _
            (λ t b s' sn o smaller. packet_loop-Ends fuel fd max_mtu t b s' sn o (omega arith))
            (ground arith))
    ]

-- `comm_tcp_write_packet` makes at most `size` rounds, whatever the operating system answers.
pub comm_tcp_write_packet-Ends :
    (fd : ℤ) (buf : List ℕ) (size max_mtu : ℕ) (os : List (Poll Taken))
    → Ends (comm_tcp_write_packet fd buf size max_mtu os)
unfolding comm_tcp_write_packet
comm_tcp_write_packet-Ends fd buf size max_mtu os =
    packet_loop-Ends (size + 1) fd max_mtu 0 buf size [] os (omega arith)
