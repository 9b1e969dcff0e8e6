-- ===== src/Queue/Sequeue/Race.antt =====
-- The two ends of the block queue in two threads. Each end has its own lock, so a call at one end can
-- run between two steps of a call at the other.
use test.Base.{
  ℕ, ◌+◌, ◌*◌, ◌%◌, ◌<◌, ◌≡◌, refl, true, false, some, List, ◌==◌, ltb, length, arith, slice,
  Bool-cases, inl, inr, le→ltb,
}
use test.Base.Int.{ℤ, pos, minus_one}
use test.Queue.Sequeue.{
  done, en_publish, en_write, en_data_queue, de_read, de_data_queue, full_data_sequeue,
  empty_data_sequeue,
}
use test.Queue.Sequeue.Laws.{live, IsValid, count, filled, slot_fits, slice-filled_ne}

-- A producer that holds its lock, has moved `rear` on an empty queue and has not yet filled the slot: a
-- consumer that runs now gets 0 and the bytes that the slot held before, and the queue is empty again, with
-- the lock of the producer still taken.
pub de_data_queue-stale :
    (size front rear : ℕ) (block : List ℕ)
    → IsValid size front rear block
    → count front rear ≡ 0
    → let slot = (rear + 1) % 3 in
      de_data_queue
        (some (record (en_publish (live front rear block)) { en_queue_lock = true }))
        true
        size
      ≡ done (
        pos 0,
        some (slice (slot * size) size block),
        some (record (live slot slot block) { en_queue_lock = true }),
      )
unfolding de_data_queue empty_data_sequeue de_read en_publish
de_data_queue-stale size front rear block v empty =
    let slot : ℕ = (rear + 1) % 3 in
    let same : front ≡ rear = omega (arith, v.front_in, v.rear_in) in
    let busy : (rear == slot) ≡ false = ground (arith, v.rear_in) in
    let inside : ltb (length block) (slot * size + size) ≡ false =
      le→ltb _ _ (slot_fits slot size (length block) (omega arith) v.block_size) in
    rw (same, busy, inside)

-- A consumer that has moved `front` and has not yet copied the slot: a producer that runs now returns
-- and leaves the bytes of that slot alone, whether it finds the queue full or adds its block.
pub en_data_queue-spares :
    (size front rear : ℕ) (block item : List ℕ)
    → IsValid size front rear block
    → 0 < count front rear
    → length item ≡ size
    → let slot = (front + 1) % 3 in
      (ret : ℤ) × (rear' : ℕ) × (block' : List ℕ) × (en_data_queue
          (some (live slot rear block))
          item
          size
        ≡ done (ret, some (live slot rear' block')))
      × (slice (slot * size) size block' ≡ slice (slot * size) size block)
unfolding en_data_queue full_data_sequeue en_publish en_write
en_data_queue-spares size front rear block item v items len =
    let slot : ℕ = (front + 1) % 3 in
    let next : ℕ = (rear + 1) % 3 in
    let inside : ltb (length block) (next * size + size) ≡ false =
      le→ltb _ _ (slot_fits next size (length block) (omega arith) v.block_size) in
    elim (Bool-cases (next == slot)) [
      | inl full ↦ (minus_one, rear, block, rw full, refl)
      | inr free ↦ (
        pos 0,
        next,
        filled next size item block,
        rw (free, inside),
        slice-filled_ne next size item block len (omega arith) v.block_size slot (ground arith),
      )
    ]
