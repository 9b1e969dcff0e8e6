-- ===== src/Queue/Sequeue/Threads.antt =====
-- The block queue of common/queue.c under any interleaving of calls of `EnDataQueue` and `DeDataQueue`.
-- A mutex gives each end to one thread at a time, so a state says for each end where the thread that
-- holds its lock stands. A step is one access to the counters or one copy of a block; the caller of
-- `DeDataQueue` wants the block.
pub mod Invariant
pub mod Fifo
pub mod Progress
pub mod Calls
use test.Base.{
  ℕ, ◌+◌, ◌%◌, ◌≡◌, Bool, true, false, ◌&&◌, ◌||◌, none, some, List, [], ◌∷◌, ◌++◌, ◌==◌, length,
}
use test.Base.Int.{ℤ, pos}
use test.Queue.Sequeue.{
  Sequeue, Run, done, max_data_sequeue, is_one, en_publish, en_write, full_data_sequeue,
  empty_data_sequeue, de_read,
}

-- Where the thread in `EnDataQueue` stands, with its block: the lock is free; behind the lock; behind the
-- test for a full queue; behind the move of `rear`; before the unlock.
pub data EnPc : Type 0 where
  en_out : EnPc
  en_locked : List ℕ → EnPc
  en_room : List ℕ → EnPc
  en_published : List ℕ → EnPc
  en_leaving : EnPc

-- The same for `DeDataQueue`: behind the test for an empty queue, behind the move of `front`.
pub data DePc : Type 0 where
  de_out : DePc
  de_locked : DePc
  de_found : DePc
  de_moved : DePc
  de_leaving : DePc

-- The counters, the block of slots, both ends, and what happened so far: the blocks that were written, the
-- blocks that were copied out, and whether a slot was taken before it was filled.
pub record Threads : Type 0 where
  pub front : ℕ
  pub rear : ℕ
  pub block : List ℕ
  pub en : EnPc
  pub de : DePc
  pub sent : List (List ℕ)
  pub got : List (List ℕ)
  pub raced : Bool

abbrev pub en_held : EnPc → Bool
en_held en_out = false
en_held _ = true

abbrev pub de_held : DePc → Bool
de_held de_out = false
de_held _ = true

-- the queue in memory
abbrev pub queue_of : Threads → Sequeue
queue_of s = record {
  front = s.front;
  rear = s.rear;
  en_queue_lock = en_held s.en;
  de_queue_lock = de_held s.de;
  bytes = some s.block;
}

-- Between the move of `rear` and the copy the slot at `rear` is not filled.
abbrev pub is_filling : EnPc → Bool
is_filling (en_published item) = true
is_filling _ = false

-- `front` moves to a slot that is not filled yet.
abbrev pub takes_early : Threads → Bool
takes_early s = is_filling s.en && ((s.front + 1) % max_data_sequeue == s.rear)

-- A step of the thread at one of the ends. A call goes in with a block of `size` bytes.
pub data Step (size : ℕ) (s : Threads) : Threads → Type 0 where
  en_lock :
      (item : List ℕ)
      → s.en ≡ en_out
      → length item ≡ size
      → Step size s (record s { en = en_locked item })
  en_full :
      (item : List ℕ)
      → s.en ≡ en_locked item
      → is_one (full_data_sequeue (some (queue_of s))) ≡ true
      → Step size s (record s { en = en_leaving })
  en_test :
      (item : List ℕ)
      → s.en ≡ en_locked item
      → is_one (full_data_sequeue (some (queue_of s))) ≡ false
      → Step size s (record s { en = en_room item })
  en_move :
      (item : List ℕ)
      → s.en ≡ en_room item
      → Step size s (record s { en = en_published item; rear = (en_publish (queue_of s)).rear })
  en_fill :
      (item block : List ℕ)
      → s.en ≡ en_published item
      → en_write (queue_of s) item size ≡ done (queue_of (record s { block = block }))
      → Step size s (record s { en = en_leaving; block = block; sent = s.sent ++ (item ∷ []) })
  en_unlock : s.en ≡ en_leaving → Step size s (record s { en = en_out })
  de_lock : s.de ≡ de_out → Step size s (record s { de = de_locked })
  de_empty :
      s.de ≡ de_locked
      → is_one (empty_data_sequeue (some (queue_of s))) ≡ true
      → Step size s (record s { de = de_leaving })
  de_test :
      s.de ≡ de_locked
      → is_one (empty_data_sequeue (some (queue_of s))) ≡ false
      → Step size s (record s { de = de_found })
  de_move :
      s.de ≡ de_found
      → Step size s (record s {
        de = de_moved;
        front = (s.front + 1) % max_data_sequeue;
        raced = s.raced || takes_early s;
      })
  de_copy :
      (out : List ℕ)
      → s.de ≡ de_moved
      → de_read (queue_of s) size ≡ done out
      → Step size s (record s { de = de_leaving; got = s.got ++ (out ∷ []) })
  de_unlock : s.de ≡ de_leaving → Step size s (record s { de = de_out })

-- a queue of `CreateEmptyDataSequeue` before any call
abbrev pub start : List ℕ → Threads
start block = record {
  front = 0;
  rear = 0;
  block = block;
  en = en_out;
  de = de_out;
  sent = [];
  got = [];
  raced = false;
}

pub data Reach (size : ℕ) (block : List ℕ) : Threads → Type 0 where
  begin : Reach size block (start block)
  later : {s t : Threads} → Reach size block s → Step size s t → Reach size block t
