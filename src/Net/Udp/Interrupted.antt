-- ===== src/Net/Udp/Interrupted.antt =====
-- `comm_udp_write` when `sendto` is interrupted, and when it is not.
use test.Base.{
  ℕ, zero, suc, ◌+◌, ◌-◌, ◌%◌, ◌<◌, ◌≡◌, ◌∙◌, refl, ap, ap₂, false, List, [], ◌∷◌, ◌==◌, min, arith,
}
use test.Net.Os.{eintr, took, refused, Taken}
use test.Net.Udp.{udp_wrote, to_short, udp_write_loop, comm_udp_write}

-- after `k` interrupted calls the kernel takes everything it is offered
abbrev pub interrupted : ℕ → ℕ → List Taken → List Taken
interrupted zero most os = took most ∷ os
interrupted (suc k) most os = refused eintr ∷ interrupted k most os

-- a loop with nothing left returns
udp_write_loop-done :
    (os : List Taken) (p slen : ℕ) (sent : List (ℕ × ℕ))
    → udp_write_loop os p 0 slen sent ≡ udp_wrote (to_short slen) sent os
unfolding udp_write_loop
udp_write_loop-done [] p slen sent = refl
udp_write_loop-done (took most ∷ os) p slen sent = refl
udp_write_loop-done (refused e ∷ os) p slen sent = refl

udp_write_loop-interrupted :
    (k p remain slen most : ℕ) (os : List Taken)
    → 0 < remain
    → remain + k < 65536
    → remain + k < most
    → udp_write_loop (interrupted k most os) p remain slen []
      ≡ udp_wrote (to_short ((slen + remain) % 65536)) ((p - k, remain + k) ∷ []) os
unfolding udp_write_loop
udp_write_loop-interrupted zero p remain slen most os some_left small enough =
    let nonzero : remain == 0 ≡ false = ground arith in
    let all : min most remain ≡ remain = omega arith in
    let none_left : remain - remain ≡ 0 = omega arith in
    let here : p - 0 ≡ p = omega arith in
    let same : remain + 0 ≡ remain = omega arith in
    rw (nonzero, all, none_left, here, same) (udp_write_loop-done os (p + remain) _ _)
udp_write_loop-interrupted (suc k) p remain slen most os some_left small enough =
    let nonzero : remain == 0 ≡ false = ground arith in
    let next : (remain + 1) % 65536 ≡ remain + 1 = omega arith in
    let bits : ((slen + 65535) % 65536 + (remain + 1)) % 65536 ≡ (slen + remain) % 65536 =
      omega arith in
    let place : p - 1 - k ≡ p - suc k = omega arith in
    let more : remain + 1 + k ≡ remain + suc k = omega arith in
    rw (nonzero, next)
      (udp_write_loop-interrupted k (p - 1) (remain + 1) ((slen + 65535) % 65536) most os
          (omega arith) (omega arith) (omega arith)
        ∙ ap₂ (λ b d. udp_wrote (to_short b) (d ∷ []) os) bits (ap₂ (λ x y. (x, y)) place more))

-- `comm_udp_write` of 1 to 65535 bytes whose `sendto` fails `k` times with EINTR and then takes
-- everything sends one datagram that begins `k` bytes before the buffer and is `k` bytes longer, and
-- reports `size` as a `short`; for `size + k` below 65536. Without an interruption, the datagram is the
-- buffer.
pub comm_udp_write-interrupted :
    (k buf size most : ℕ) (os : List Taken)
    → 0 < size
    → size + k < 65536
    → size + k < most
    → comm_udp_write buf size (interrupted k most os)
      ≡ udp_wrote (to_short size) ((buf - k, size + k) ∷ []) os
unfolding comm_udp_write
comm_udp_write-interrupted k buf size most os some_left small enough =
    let bits : size % 65536 ≡ size = omega arith in
    let from_zero : (0 + size) % 65536 ≡ size = omega arith in
    rw bits (
      udp_write_loop-interrupted k buf size 0 most os some_left small enough
      ∙ ap (λ b. udp_wrote (to_short b) ((buf - k, size + k) ∷ []) os) from_zero)
