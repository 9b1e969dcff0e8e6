-- ===== src/Net/Tcp.antt =====
-- The transfers of common/tcpsocket.c: `comm_tcp_read`, `comm_tcp_exRead`, `comm_tcp_write` and
-- `comm_tcp_write_packet`. Sizes are not negative here; a script that ends is a call that still waits.
pub mod Read
pub mod Write
pub mod Packet
use test.Base.{
  ℕ, zero, suc, ◌+◌, ◌-◌, Bool, true, false, Option, none, some, List, [], ◌∷◌, ◌++◌, ◌==◌, ltb,
  if◌then◌else◌, length, take, drop, min,
}
use test.Base.Int.{ℤ, pos, negsuc, minus_one, minus_two, is_neg}
use test.Net.Os.{
  Errno, is_transient, Taken, took, refused, Given, gave, failed_recv, Poll, ready, failed, timeout,
}

-- A write that returned, with the bytes that the kernel took and the rest of the script, or one that
-- waits.
pub data Wrote : Type 0 where
  wrote : ℤ → List ℕ → List (Poll Taken) → Wrote
  write_waits : List ℕ → Wrote

-- The loop of `comm_tcp_write`: `size1`, `selectcnt`, the bytes from `buf` on, `size`, and the bytes
-- that the kernel took.
unfoldable pub write_loop : ℕ → List (Poll Taken) → ℕ → List ℕ → ℕ → List ℕ → Wrote
write_loop size1 [] selectcnt buf size sent =
    if size == 0 then wrote (pos (size1 - size)) sent [] else write_waits sent
write_loop size1 (ready (took n) ∷ os) selectcnt buf size sent =
    let len = min n size in
    let rest = write_loop size1 os selectcnt (drop len buf) (size - len) (sent ++ take len buf) in
    if size == 0 then wrote (pos (size1 - size)) sent (ready (took n) ∷ os) else rest
write_loop size1 (ready (refused e) ∷ os) selectcnt buf size sent =
    let rest = write_loop size1 os selectcnt buf size sent in
    if size == 0
    then wrote (pos (size1 - size)) sent (ready (refused e) ∷ os)
    else if is_transient e
    then rest
    else wrote minus_one sent os
write_loop size1 (failed e ∷ os) selectcnt buf size sent =
    let rest = write_loop size1 os (selectcnt + 1) buf size sent in
    if size == 0
    then wrote (pos (size1 - size)) sent (failed e ∷ os)
    else if is_transient e
    then (if ltb (selectcnt + 1) 11 then rest else wrote minus_one sent os)
    else wrote minus_one sent os
write_loop size1 (timeout e ∷ os) selectcnt buf size sent =
    if size == 0
    then wrote (pos (size1 - size)) sent (timeout e ∷ os)
    else if is_transient e
    then wrote (pos 0) sent os
    else wrote minus_one sent os

unfoldable pub comm_tcp_write : ℤ → List ℕ → ℕ → List (Poll Taken) → Wrote
unfolding write_loop
comm_tcp_write fd buf size os =
    if is_neg fd then wrote minus_one [] os else write_loop size os 0 buf size []

-- what `comm_tcp_write_packet` does with the result of a write; `again` is the next round
pub after_write :
    (ℕ → List ℕ → ℕ → List ℕ → List (Poll Taken) → Option Wrote)
    → ℕ
    → List ℕ
    → ℕ
    → List ℕ
    → Wrote
    → Option Wrote
after_write again total buf size sent (write_waits more) = some (write_waits (sent ++ more))
after_write again total buf size sent (wrote (negsuc n) more os) =
    some (wrote (pos total) (sent ++ more) os)
after_write again total buf size sent (wrote (pos zero) more os) =
    some (wrote (pos total) (sent ++ more) os)
after_write again total buf size sent (wrote (pos (suc n)) more os) =
    again (total + suc n) (drop (suc n) buf) (size - suc n) (sent ++ more) os

-- The loop of `comm_tcp_write_packet`, on fuel; `total` is `buf - ptr`. A write of 0 bytes or less ends
-- it. `none` is the end of the fuel.
pub packet_loop : ℕ → ℤ → ℕ → ℕ → List ℕ → ℕ → List ℕ → List (Poll Taken) → Option Wrote
unfolding after_write
packet_loop zero fd max_mtu total buf size sent os = none
packet_loop (suc fuel) fd max_mtu total buf size sent os =
    if size == 0
    then some (wrote (pos total) sent os)
    else after_write (packet_loop fuel fd max_mtu) total buf size sent
        (comm_tcp_write fd buf (if ltb max_mtu size then max_mtu else size) os)

pub comm_tcp_write_packet : ℤ → List ℕ → ℕ → ℕ → List (Poll Taken) → Option Wrote
unfolding packet_loop
comm_tcp_write_packet fd buf size max_mtu os = packet_loop (size + 1) fd max_mtu 0 buf size [] os

-- A read that returned, with what it put into the buffer, or one that waits.
pub data Got : Type 0 where
  got : ℤ → List ℕ → List (Poll Given) → Got
  read_waits : Got

-- the loop of `comm_tcp_read`
unfoldable pub read_loop : ℕ → List (Poll Given) → Got
read_loop size [] = read_waits
read_loop size (ready (gave bytes) ∷ os) = got (pos (length (take size bytes))) (take size bytes) os
read_loop size (ready (failed_recv e) ∷ os) =
    let rest = read_loop size os in if is_transient e then rest else got minus_two [] os
read_loop size (failed e ∷ os) = got minus_one [] os
read_loop size (timeout e ∷ os) = got (pos 0) [] os

unfoldable pub comm_tcp_read : ℤ → ℕ → List (Poll Given) → Got
unfolding read_loop
comm_tcp_read fd size os = if is_neg fd then got minus_one [] os else read_loop size os

-- what `comm_tcp_exRead` does with the result of a read
pub after_read : (List ℕ → ℕ → List (Poll Given) → Option Got) → List ℕ → ℕ → Got → Option Got
after_read again filled size read_waits = some read_waits
after_read again filled size (got (negsuc n) bytes os) = some (got (pos (length filled)) filled os)
after_read again filled size (got (pos zero) bytes os) = some (got (pos (length filled)) filled os)
after_read again filled size (got (pos (suc n)) bytes os) =
    again (filled ++ bytes) (size - suc n) os

-- The loop of `comm_tcp_exRead`, on fuel; `size1` is the length of what `buf` holds.
pub ex_read_loop : ℕ → ℤ → List ℕ → ℕ → List (Poll Given) → Option Got
unfolding after_read
ex_read_loop zero fd filled size os = none
ex_read_loop (suc fuel) fd filled size os =
    if size == 0
    then some (got (pos (length filled)) filled os)
    else after_read (ex_read_loop fuel fd) filled size (comm_tcp_read fd size os)

pub comm_tcp_ex_read : ℤ → ℕ → List (Poll Given) → Option Got
unfolding ex_read_loop
comm_tcp_ex_read fd size os = ex_read_loop (size + 1) fd [] size os
