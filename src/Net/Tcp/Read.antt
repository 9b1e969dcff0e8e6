-- ===== src/Net/Tcp/Read.antt =====
-- `comm_tcp_exRead` never fills more than it was asked for, and its result is what it filled.
use test.Base.{
  ℕ, zero, suc, ◌+◌, ◌-◌, ◌≤◌, ◌<◌, ◌≡◌, inl, inr, refl, Option, none, some, List, [], ◌∷◌, ◌++◌,
  ◌==◌, length, arith, Bool-cases, length-take, length-append,
}
use test.Base.Int.{ℤ, pos, negsuc, is_neg}
use test.Net.Os.{is_transient, Given, gave, failed_recv, Poll, ready, failed, timeout}
use test.Net.Tcp.{
  Got, got, read_waits, read_loop, comm_tcp_read, after_read, ex_read_loop, comm_tcp_ex_read,
}

-- A read of at most `size` bytes: a result that is not negative is the number of bytes that were put
-- into the buffer.
abbrev pub IsRead : ℕ → Got → Type 0
IsRead size read_waits = Unit
IsRead size (got (pos n) bytes os) = (n ≡ length bytes) × (n ≤ size)
IsRead size (got (negsuc n) bytes os) = bytes ≡ []

read_loop-IsRead : (size : ℕ) (os : List (Poll Given)) → IsRead size (read_loop size os)
unfolding read_loop
read_loop-IsRead size [] = tt
read_loop-IsRead size (ready (gave bytes) ∷ os) = (refl, omega (arith, length-take size bytes))
read_loop-IsRead size (ready (failed_recv e) ∷ os) = elim (Bool-cases (is_transient e)) [
  | inl again ↦ rw again (read_loop-IsRead size os)
  | inr fatal ↦ rw fatal refl
]
read_loop-IsRead size (failed e ∷ os) = refl
read_loop-IsRead size (timeout e ∷ os) = (refl, omega arith)

-- `comm_tcp_read` returns the number of bytes that it put into the buffer, at most `size`; a negative
-- result comes with none.
pub comm_tcp_read-IsRead :
    (fd : ℤ) (size : ℕ) (os : List (Poll Given)) → IsRead size (comm_tcp_read fd size os)
unfolding comm_tcp_read
comm_tcp_read-IsRead fd size os = elim (Bool-cases (is_neg fd)) [
  | inl bad ↦ rw bad refl
  | inr good ↦ rw good (read_loop-IsRead size os)
]

-- The call ends, and unless it waits its result is the number of bytes filled, at most `size`.
abbrev pub Filled : ℕ → Option Got → Type 0
Filled size none = ⊥
Filled size (some read_waits) = Unit
Filled size (some (got ret bytes os)) = (ret ≡ pos (length bytes)) × (length bytes ≤ size)

after_read-Filled :
    (again : List ℕ → ℕ → List (Poll Given) → Option Got) (filled : List ℕ) (size total : ℕ)
    (g : Got)
    → length filled + size ≡ total
    → IsRead size g
    → ((filled' : List ℕ) (size' : ℕ) (os : List (Poll Given))
        → size' < size
        → length filled' + size' ≡ total
        → Filled total (again filled' size' os))
    → Filled total (after_read again filled size g)
unfolding after_read
after_read-Filled again filled size total read_waits sum h next = tt
after_read-Filled again filled size total (got (negsuc n) bytes os) sum h next = (refl, omega arith)
after_read-Filled again filled size total (got (pos zero) bytes os) sum h next = (refl, omega arith)
after_read-Filled again filled size total (got (pos (suc n)) bytes os) sum h next =
    next (filled ++ bytes) (size - suc n) os (omega (arith, h.1))
      (omega (arith, length-append filled bytes, h.0, h.1))

ex_read_loop-Filled :
    (fuel : ℕ) (fd : ℤ) (filled : List ℕ) (size total : ℕ) (os : List (Poll Given))
    → size < fuel
    → length filled + size ≡ total
    → Filled total (ex_read_loop fuel fd filled size os)
unfolding ex_read_loop
ex_read_loop-Filled zero fd filled size total os enough sum = absurd (omega arith)
ex_read_loop-Filled (suc fuel) fd filled size total os enough sum = elim (Bool-cases (size == 0)) [
  | inl over ↦ rw over (refl, omega arith)
  | inr more ↦ rw more (
      after_read-Filled (ex_read_loop fuel fd) filled size total (comm_tcp_read fd size os) sum
        (comm_tcp_read-IsRead fd size os)
        (λ f s' o smaller e. ex_read_loop-Filled fuel fd f s' total o (omega arith) e))
]

-- `comm_tcp_exRead` ends or waits, whatever the operating system answers; its result is the number of
-- bytes that it put into the buffer, and at most `size`.
pub comm_tcp_ex_read-Filled :
    (fd : ℤ) (size : ℕ) (os : List (Poll Given)) → Filled size (comm_tcp_ex_read fd size os)
unfolding comm_tcp_ex_read
comm_tcp_ex_read-Filled fd size os =
    ex_read_loop-Filled (size + 1) fd [] size size os (omega arith) (omega arith)
