-- ===== src/Net/Buffer.antt =====
-- The buffer sizes of a socket, in common/commonsocket.c.
use test.Base.{
  ℕ, zero, suc, ◌+◌, ◌/◌, ◌%◌, ◌^◌, ◌<◌, ◌≤◌, ◌≡◌, ◌⊎◌, inl, inr, refl, false, not, Option, none,
  some, ltb, if◌then◌else◌, arith, Bool-cases,
}
use test.Base.Int.{ℤ, pos, is_neg}

-- `comm_getBufferSize`: what `getsockopt` reads, or 0 when it fails
unfoldable pub comm_get_buffer_size : Option ℕ → ℕ
comm_get_buffer_size none = 0
comm_get_buffer_size (some cur_size) = cur_size

-- `comm_setBufferTo`: the result of `setsockopt` is ignored, and the size is read again.
pub comm_set_buffer_to : ℤ → Option ℕ → ℕ
unfolding comm_get_buffer_size
comm_set_buffer_to set_result read_again = comm_get_buffer_size read_again

-- The loop of `comm_increaseBufferTo`, on fuel. `setsockopt` answers for each size it is asked for; the
-- sizes of one run fall, so no size is asked for twice. `none` is the end of the fuel.
pub increase_loop : ℕ → (ℕ → ℤ) → ℕ → Option ℕ → ℕ → Option ℕ
unfolding comm_get_buffer_size
increase_loop zero setsockopt cur_size read_again requested_size = none
increase_loop (suc fuel) setsockopt cur_size read_again requested_size =
    let rest =
      increase_loop fuel setsockopt cur_size read_again
        ((requested_size + cur_size) % 2 ^ 32 / 2) in
    if ltb cur_size requested_size
    then (if not (is_neg (setsockopt requested_size)) then some requested_size else rest)
    else some (comm_get_buffer_size read_again)

-- `comm_increaseBufferTo` on the sizes read before and after the loop
unfoldable pub comm_increase_buffer_to : (ℕ → ℤ) → Option ℕ → Option ℕ → ℕ → Option ℕ
unfolding increase_loop comm_get_buffer_size
comm_increase_buffer_to setsockopt read_first read_again requested_size =
    increase_loop (requested_size + 1) setsockopt (comm_get_buffer_size read_first) read_again
      requested_size

-- `comm_set_socket_sendBUf` and `comm_set_socket_recvBUf`, and in the same form
-- `comm_socket_joinGroup` and `comm_socket_leaveGroup`
pub comm_set_socket_option : ℤ → ℤ → ℤ
comm_set_socket_option socket ret =
    if is_neg socket then pos 0 else if is_neg ret then pos 0 else pos 1

-- The loop returned a size above the present one that the system accepted, or the size read at the end.
abbrev pub IncreasedTo : (ℕ → ℤ) → ℕ → ℕ → Option ℕ → Option ℕ → Type 0
IncreasedTo setsockopt cur_size requested_size read_again none = ⊥
IncreasedTo setsockopt cur_size requested_size read_again (some size) =
    (size ≡ comm_get_buffer_size read_again)
    ⊎ ((cur_size < size) × (size ≤ requested_size) × (is_neg (setsockopt size) ≡ false))

IncreasedTo-weaken :
    (setsockopt : ℕ → ℤ) (cur_size less more : ℕ) (read_again r : Option ℕ)
    → less ≤ more
    → IncreasedTo setsockopt cur_size less read_again r
    → IncreasedTo setsockopt cur_size more read_again r
IncreasedTo-weaken setsockopt cur_size less more read_again none le never = never
IncreasedTo-weaken setsockopt cur_size less more read_again (some size) le (inl e) = inl e
IncreasedTo-weaken setsockopt cur_size less more read_again (some size) le (inr (gt, bound, ok)) =
    inr (gt, omega (arith, le, bound), ok)

increase_loop-IncreasedTo :
    (fuel : ℕ) (setsockopt : ℕ → ℤ) (cur_size : ℕ) (read_again : Option ℕ) (requested_size : ℕ)
    → requested_size < fuel
    → IncreasedTo setsockopt cur_size requested_size read_again
        (increase_loop fuel setsockopt cur_size read_again requested_size)
unfolding increase_loop
increase_loop-IncreasedTo zero setsockopt cur_size read_again requested_size enough =
    absurd (omega arith)
increase_loop-IncreasedTo (suc fuel) setsockopt cur_size read_again requested_size enough =
    elim (Bool-cases (ltb cur_size requested_size)) [
      | inr stop ↦ rw stop (inl refl)
      | inl larger ↦ elim (Bool-cases (is_neg (setsockopt requested_size))) [
        | inr ok ↦ rw (larger, ok) (inr (ground arith, omega arith, ok))
        | inl denied ↦
            rw (larger, denied)
              (IncreasedTo-weaken setsockopt cur_size ((requested_size + cur_size) % 2 ^ 32 / 2)
                requested_size read_again _ (ground arith)
                (increase_loop-IncreasedTo fuel setsockopt cur_size read_again
                  ((requested_size + cur_size) % 2 ^ 32 / 2) (ground arith)))
      ]
    ]

-- `comm_increaseBufferTo` ends. It returns the size read at the end, or a size above the present one
-- and not above the wanted one that `setsockopt` accepted.
pub comm_increase_buffer_to-IncreasedTo :
    (setsockopt : ℕ → ℤ) (read_first read_again : Option ℕ) (requested_size : ℕ)
    → IncreasedTo setsockopt
        (comm_get_buffer_size read_first)
        requested_size
        read_again
        (comm_increase_buffer_to setsockopt read_first read_again requested_size)
unfolding comm_increase_buffer_to
comm_increase_buffer_to-IncreasedTo setsockopt read_first read_again requested_size =
    increase_loop-IncreasedTo (requested_size + 1) setsockopt (comm_get_buffer_size read_first)
      read_again requested_size (omega arith)
