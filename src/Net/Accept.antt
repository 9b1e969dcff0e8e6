-- ===== src/Net/Accept.antt =====
-- Accepting connections: `comm_tcp_accept` and `comm_tcp_noblock_accept` of common/tcpsocket.c.
use test.Base.{
  ℕ, zero, suc, ◌≡◌, refl, Bool, true, ◌&&◌, Option, none, some, List, [], ◌∷◌, ◌++◌, if◌then◌else◌,
  replicate, arith,
}
use test.Base.Int.{ℤ, pos, minus_one, is_positive}

-- What one call of `accept` returns: a descriptor, or a failure by ECONNABORTED or by another error.
pub data Accepted : Type 0 where
  connection : ℕ → Accepted
  aborted : Accepted
  refused_accept : Accepted

-- `comm_tcp_accept`; `none` is a call that still waits.
unfoldable pub comm_tcp_accept : List Accepted → Option ℤ
comm_tcp_accept [] = none
comm_tcp_accept (connection fd ∷ os) = some (pos fd)
comm_tcp_accept (aborted ∷ os) = comm_tcp_accept os
comm_tcp_accept (refused_accept ∷ os) = some minus_one

-- `comm_tcp_noblock_accept`: what `select` returns, and whether the descriptor is in its set then
unfoldable pub comm_tcp_noblock_accept : ℤ → ℤ → Bool → List Accepted → Option ℤ
comm_tcp_noblock_accept fd selected is_set os =
    if is_positive fd
    then (if is_positive selected && is_set then comm_tcp_accept os else some minus_one)
    else some minus_one

-- Connections that were aborted before `accept` are passed over, however many there are; when no other
-- call comes, the function waits, also behind a `select` that was given a timeout.
comm_tcp_noblock_accept-aborted :
    (k fd n : ℕ) (os : List Accepted)
    → comm_tcp_noblock_accept (pos (suc fd)) (pos (suc n)) true (replicate k aborted ++ os)
      ≡ comm_tcp_accept os
unfolding comm_tcp_noblock_accept comm_tcp_accept
comm_tcp_noblock_accept-aborted k fd n os =
    let open_fd : is_positive (pos (suc fd)) ≡ true = ground arith in
    let selected : is_positive (pos (suc n)) ≡ true = ground arith in
    rw (open_fd, selected) (passes k)
  where
    passes : (j : ℕ) → comm_tcp_accept (replicate j aborted ++ os) ≡ comm_tcp_accept os
    passes zero = refl
    passes (suc j) = passes j
