-- ===== src/Net/Udp.antt =====
-- The transfers of common/udpsocket.c.
pub mod Interrupted
use test.Base.{
  ℕ, zero, suc, ◌+◌, ◌-◌, ◌%◌, ◌^◌, Bool, true, false, Option, none, some, List, [], ◌∷◌, ◌++◌,
  ◌==◌, ltb, if◌then◌else◌, length, take, min,
}
use test.Base.Int.{ℤ, pos, negsuc, minus_one}
use test.Net.Os.{
  Errno, is_transient, Taken, took, refused, Given, gave, failed_recv, Poll, ready, failed, timeout,
}
use test.Net.Tcp.{Got, got, read_waits}

-- the loop of `comm_udp_socket_read`; a timeout of `select` goes round again
pub comm_udp_socket_read : ℕ → List (Poll Given) → Got
comm_udp_socket_read size [] = read_waits
comm_udp_socket_read size (failed e ∷ os) = got minus_one [] os
comm_udp_socket_read size (timeout e ∷ os) = comm_udp_socket_read size os
comm_udp_socket_read size (ready (gave bytes) ∷ os) =
    got (pos (length (take size bytes))) (take size bytes) os
comm_udp_socket_read size (ready (failed_recv e) ∷ os) =
    let rest = comm_udp_socket_read size os in if is_transient e then rest else got minus_one [] os

-- what `comm_udp_socket_readEx` does with the result of a read
pub after_udp_read : (List ℕ → ℕ → List (Poll Given) → Option Got) → List ℕ → ℕ → Got → Option Got
after_udp_read again filled size read_waits = some read_waits
after_udp_read again filled size (got (negsuc n) bytes os) =
    some (got (pos (length filled)) filled os)
after_udp_read again filled size (got (pos n) bytes os) = again (filled ++ bytes) (size - n) os

-- The loop of `comm_udp_socket_readEx`, on fuel: an empty datagram goes round again, so the fuel counts
-- the answers of the system.
pub udp_read_ex_loop : ℕ → List ℕ → ℕ → List (Poll Given) → Option Got
unfolding after_udp_read
udp_read_ex_loop zero filled size os = none
udp_read_ex_loop (suc fuel) filled size os =
    if size == 0
    then some (got (pos (length filled)) filled os)
    else after_udp_read (udp_read_ex_loop fuel) filled size (comm_udp_socket_read size os)

pub comm_udp_socket_read_ex : ℕ → List (Poll Given) → Option Got
unfolding udp_read_ex_loop
comm_udp_socket_read_ex size os = udp_read_ex_loop (length os + 2) [] size os

-- A write that returned, with the datagrams (address and length) that it sent and the rest of the
-- script, or one that waits.
pub data UdpWrote : Type 0 where
  udp_wrote : ℤ → List (ℕ × ℕ) → List Taken → UdpWrote
  udp_waits : List (ℕ × ℕ) → UdpWrote

-- a `short` from its 16 bits
abbrev pub to_short : ℕ → ℤ
to_short bits = if ltb bits 32768 then pos bits else negsuc (65535 - bits)

-- The loop of `comm_udp_write` on `p`, `remain` (16 bits) and the bits of `slen`. A call that fails with
-- EINTR or EAGAIN leaves `n` at -1, which is then subtracted and added like a length.
pub udp_write_loop : List Taken → ℕ → ℕ → ℕ → List (ℕ × ℕ) → UdpWrote
udp_write_loop [] p remain slen sent =
    if remain == 0 then udp_wrote (to_short slen) sent [] else udp_waits sent
udp_write_loop (took most ∷ os) p remain slen sent =
    let n = min most remain in
    let rest = udp_write_loop os (p + n) (remain - n) ((slen + n) % 65536) (sent ++ (p, n) ∷ []) in
    if remain == 0 then udp_wrote (to_short slen) sent (took most ∷ os) else rest
udp_write_loop (refused e ∷ os) p remain slen sent =
    let rest = udp_write_loop os (p - 1) ((remain + 1) % 65536) ((slen + 65535) % 65536) sent in
    if remain == 0
    then udp_wrote (to_short slen) sent (refused e ∷ os)
    else if is_transient e
    then rest
    else udp_wrote minus_one sent os

-- `comm_udp_write` on a buffer at the address `buf`; `size` is not negative here.
pub comm_udp_write : ℕ → ℕ → List Taken → UdpWrote
unfolding udp_write_loop
comm_udp_write buf size os = udp_write_loop os buf (size % 65536) 0 []

-- what `comm_udp_write_Packet` does with the result of a write
pub after_udp_write :
    (ℕ → ℕ → List (ℕ × ℕ) → List Taken → Option UdpWrote)
    → ℕ
    → ℕ
    → ℕ
    → List (ℕ × ℕ)
    → UdpWrote
    → Option UdpWrote
after_udp_write again ptr buf size sent (udp_waits more) = some (udp_waits (sent ++ more))
after_udp_write again ptr buf size sent (udp_wrote (negsuc n) more os) =
    some (udp_wrote (pos (buf - ptr)) (sent ++ more) os)
after_udp_write again ptr buf size sent (udp_wrote (pos n) more os) =
    again (buf + n) (size - n) (sent ++ more) os

-- The loop of `comm_udp_write_Packet`, on fuel. A write of 0 bytes goes round again: `none` is the end of
-- the fuel.
pub udp_packet_loop : ℕ → ℕ → ℕ → ℕ → ℕ → List (ℕ × ℕ) → List Taken → Option UdpWrote
unfolding after_udp_write
udp_packet_loop zero max_mtu ptr buf size sent os = none
udp_packet_loop (suc fuel) max_mtu ptr buf size sent os =
    if size == 0
    then some (udp_wrote (pos (buf - ptr)) sent os)
    else after_udp_write (udp_packet_loop fuel max_mtu ptr) ptr buf size sent
        (comm_udp_write buf (if ltb max_mtu size then max_mtu else size) os)

pub comm_udp_write_packet : ℕ → ℕ → ℕ → List Taken → Option UdpWrote
unfolding udp_packet_loop
comm_udp_write_packet buf size max_mtu os = udp_packet_loop (size + 1) max_mtu buf buf size [] os
