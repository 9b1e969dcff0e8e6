-- ===== src/Net/Os.antt =====
-- What the operating system answers to a program that waits for a socket and then uses it.
use test.Base.{ℕ, List, Bool, true, false}

-- the value of `errno` after a call that failed
pub data Errno : Type 0 where
  eintr eagain other : Errno

-- `errno == EINTR || errno == EAGAIN`
abbrev pub is_transient : Errno → Bool
is_transient eintr = true
is_transient eagain = true
is_transient other = false

-- A call of `send`: the kernel takes up to this many of the bytes that it is offered, or fails.
pub data Taken : Type 0 where
  took : ℕ → Taken
  refused : Errno → Taken

-- A call of `recv`: the bytes that are there (none of them after the end of a stream), or a failure.
pub data Given : Type 0 where
  gave : List ℕ → Given
  failed_recv : Errno → Given

-- A call of `select` for one socket, and the call that follows it when the socket is ready. A timeout
-- leaves `errno` as it was.
pub data Poll (A : Type 0) : Type 0 where
  ready : A → Poll A
  failed : Errno → Poll A
  timeout : Errno → Poll A
