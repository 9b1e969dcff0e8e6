-- ===== src/Queue/Sequeue.antt =====
-- common/queue.c: a circular queue of blocks of bytes with a lock for each end. A queue pointer is an
-- `Option`; a function that changes `*queue` returns it anew. The mutexes are held or free.
pub mod Laws
pub mod Race
pub mod Threads
use test.Base.{
  ℕ, ◌+◌, ◌-◌, ◌*◌, ◌%◌, Bool, true, false, ◌&&◌, Option, none, some, List, [], ◌∷◌, ◌==◌, ltb,
  if◌then◌else◌, take, length, write_at, fill_at, slice,
}
use test.Base.Int.{ℤ, pos, minus_one}

-- MAX_DATA_SEQUEUE
abbrev pub max_data_sequeue : ℕ
max_data_sequeue = 3

-- `sequeue_data_t`; `bytes` is the block that `data` points to.
pub record Sequeue : Type 0 where
  pub front : ℕ
  pub rear : ℕ
  pub en_queue_lock : Bool
  pub de_queue_lock : Bool
  pub bytes : Option (List ℕ)

-- A call returns, or it locks through a null pointer or leaves the block (`fault`), or it waits for a
-- lock that is held (`blocked`).
pub data Run (A : Type 0) : Type 0 where
  done : A → Run A
  fault : Run A
  blocked : Run A

-- `CreateEmptyDataSequeue`: whether the first `malloc` succeeds, and the block that the second returns.
unfoldable pub create_empty_data_sequeue : Bool → Option (List ℕ) → Option Sequeue
create_empty_data_sequeue false block = none
create_empty_data_sequeue true none = none
create_empty_data_sequeue true (some block) = some (record {
  front = 0;
  rear = 0;
  en_queue_lock = false;
  de_queue_lock = false;
  bytes = some block;
})

-- the two blocks of memory of a queue
pub data Part : Type 0 where
  the_data the_queue : Part

-- what `DestroyDataSequeue` frees, in order; it destroys no mutex.
unfoldable pub destroy_data_sequeue : Option Sequeue → List Part
destroy_data_sequeue none = []
destroy_data_sequeue (some q) = elim q.bytes [
  | none ↦ the_queue ∷ []
  | some b ↦ the_data ∷ the_queue ∷ []
]

unfoldable pub empty_data_sequeue : Option Sequeue → ℤ
empty_data_sequeue none = minus_one
empty_data_sequeue (some q) = elim q.bytes [
  | none ↦ minus_one
  | some b ↦ if q.front == q.rear then pos 1 else pos 0
]

unfoldable pub full_data_sequeue : Option Sequeue → ℤ
full_data_sequeue none = minus_one
full_data_sequeue (some q) = elim q.bytes [
  | none ↦ minus_one
  | some b ↦ if (q.rear + 1) % max_data_sequeue == q.front then pos 1 else pos 0
]

-- The returned value is 1.
abbrev pub is_one : ℤ → Bool
is_one (pos n) = n == 1
is_one x = false

-- the first step of a successful `EnDataQueue`: `rear` moves on
unfoldable pub en_publish : Sequeue → Sequeue
en_publish q = record q { rear = (q.rear + 1) % max_data_sequeue }

-- the second: the slot at `rear` is cleared and filled
unfoldable pub en_write : Sequeue → List ℕ → ℕ → Run Sequeue
en_write q in_data size = elim q.bytes [
  | none ↦ fault
  | some b ↦
      let off = q.rear * size in
      if ltb (length b) (off + size)
      then fault
      else done
          (record q { bytes = some (write_at off (take size in_data) (fill_at off 0 size b)) })
]

-- the unlock and the return
abbrev pub en_finish : ℤ → Sequeue → ℤ × Option Sequeue
en_finish ret q = (ret, some (record q { en_queue_lock = false }))

abbrev pub map_run : {A B : Type 0} → (A → B) → Run A → Run B
map_run f (done a) = done (f a)
map_run f fault = fault
map_run f blocked = blocked

-- `EnDataQueue`. The lock is taken before the pointer is tested.
unfoldable pub en_data_queue : Option Sequeue → List ℕ → ℕ → Run (ℤ × Option Sequeue)
unfolding en_publish en_write full_data_sequeue
en_data_queue none in_data size = fault
en_data_queue (some q0) in_data size =
    let q : Sequeue = record q0 { en_queue_lock = true } in
    if q0.en_queue_lock then blocked else elim q.bytes [
      | none ↦ done (en_finish minus_one q)
      | some b ↦
          if is_one (full_data_sequeue (some q))
          then done (en_finish minus_one q)
          else map_run (en_finish (pos 0)) (en_write (en_publish q) in_data size)
    ]

-- what `memcpy` reads at the slot `front`
pub de_read : Sequeue → ℕ → Run (List ℕ)
de_read q size = elim q.bytes [
  | none ↦ fault
  | some b ↦
      let off = q.front * size in
      if ltb (length b) (off + size) then fault else done (slice off size b)
]

abbrev pub de_finish : ℤ → Sequeue → Option (List ℕ) → ℤ × Option (List ℕ) × Option Sequeue
de_finish ret q out = (ret, out, some (record q { de_queue_lock = false }))

-- `DeDataQueue`; `wanted` says that `outData` is not NULL, and the second part of the result is what
-- goes there.
unfoldable pub de_data_queue :
    Option Sequeue → Bool → ℕ → Run (ℤ × Option (List ℕ) × Option Sequeue)
unfolding empty_data_sequeue de_read
de_data_queue none wanted size = fault
de_data_queue (some q0) wanted size =
    let q : Sequeue = record q0 { de_queue_lock = true } in
    let q' : Sequeue = record q { front = (q.front + 1) % max_data_sequeue } in
    if q0.de_queue_lock then blocked else elim q.bytes [
      | none ↦ done (de_finish minus_one q none)
      | some b ↦
          if is_one (empty_data_sequeue (some q))
          then done (de_finish minus_one q none)
          else if wanted
          then map_run (λ out. de_finish (pos 0) q' (some out)) (de_read q' size)
          else done (de_finish (pos 0) q' none)
    ]

unfoldable pub get_sequeue_size : Option Sequeue → ℤ
get_sequeue_size none = minus_one
get_sequeue_size (some q) = elim q.bytes [
  | none ↦ minus_one
  | some b ↦
      if ltb q.front q.rear
      then pos (q.rear - q.front)
      else pos (max_data_sequeue + q.rear - q.front)
]

-- `DeAllDataQueue` takes the lock of the writing end alone.
pub de_all_data_queue : Option Sequeue → Run (ℤ × Option Sequeue)
de_all_data_queue none = done (minus_one, none)
de_all_data_queue (some q) = elim q.bytes [
  | none ↦ done (minus_one, some q)
  | some b ↦
      if q.en_queue_lock
      then blocked
      else done (pos 0, some (record q { front = 0; rear = 0; en_queue_lock = false }))
]
