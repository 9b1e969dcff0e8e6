-- ===== src/Queue/Sequeue/Laws.antt =====
-- The block queue behaves as a FIFO list of at most two blocks.
use test.Base.{
  ℕ, suc, ◌+◌, ◌-◌, ◌*◌, ◌%◌, ◌≤◌, ◌<◌, ◌≡◌, ◌≢◌, refl, ap, ◌∙◌, sym, Bool, true, false, none, some,
  List, [], ◌∷◌, ◌++◌, ◌==◌, ltb, if◌then◌else◌, length, arith, take, slice, write_at, fill_at,
  replicate, Bool-cases, inl, inr, dec_lt, length-write_at, slice-write_at_self,
  slice-write_at_before, drop-write_at_after, take_all, length-replicate, le→ltb,
}
use test.Base.Int.{pos, minus_one}
use test.Queue.Cells.{cells, cells-push, cells_of_slot}
use test.Queue.Sequeue.{
  Sequeue, done, en_publish, en_write, en_data_queue, de_read, de_data_queue, full_data_sequeue,
  empty_data_sequeue, get_sequeue_size, de_all_data_queue,
}

-- A queue with both locks free.
abbrev pub live : ℕ → ℕ → List ℕ → Sequeue
live front rear block = record {
  front = front;
  rear = rear;
  en_queue_lock = false;
  de_queue_lock = false;
  bytes = some block;
}

-- The counters are slots, and the block holds three slots of `size` bytes.
pub record IsValid (size front rear : ℕ) (block : List ℕ) : Type 0 where
  pub block_size : length block ≡ 3 * size
  pub front_in : front < 3
  pub rear_in : rear < 3

-- how many blocks are queued
abbrev pub count : ℕ → ℕ → ℕ
count front rear = (rear + 3 - front) % 3

-- the blocks, oldest first
abbrev pub contents : ℕ → ℕ → ℕ → List ℕ → List (List ℕ)
contents size front rear block =
    cells (λ i. slice (i * size) size block) 3 (front + 1) (count front rear)

-- Slots do not overlap.
slots_apart : (i j size : ℕ) → i < j → i * size + size ≤ j * size
slots_apart i j size h = grind arith

pub slot_fits : (i size n : ℕ) → i < 3 → n ≡ 3 * size → i * size + size ≤ n
slot_fits i size n h e = grind arith

-- the block after `memset` and `memcpy`
abbrev pub filled : ℕ → ℕ → List ℕ → List ℕ → List ℕ
filled slot size item block =
    write_at (slot * size) (take size item) (fill_at (slot * size) 0 size block)

module _ (slot size : ℕ) (item block : List ℕ) (len : length item ≡ size) (slot_in : slot < 3)
    (whole : length block ≡ 3 * size) where
  pub length-filled : length (filled slot size item block) ≡ 3 * size
  length-filled =
      length-write_at (slot * size) (take size item) (fill_at (slot * size) 0 size block)
      ∙ length-write_at (slot * size) (replicate size 0) block
      ∙ whole

  pub slice-filled_self : slice (slot * size) size (filled slot size item block) ≡ item
  slice-filled_self =
      let all : take size item ≡ item = take_all size item (omega arith) in
      let cleared : length (fill_at (slot * size) 0 size block) ≡ length block =
        length-write_at (slot * size) (replicate size 0) block in
      slice-write_at_self (slot * size) (take size item) (fill_at (slot * size) 0 size block) size
        (sym (ap length all ∙ len))
        (omega (arith, cleared, slot_fits slot size (length block) slot_in whole))
      ∙ all

  pub slice-filled_ne :
      (i : ℕ)
      → i ≢ slot
      → slice (i * size) size (filled slot size item block) ≡ slice (i * size) size block
  slice-filled_ne i ne =
      let all : length (take size item) ≡ size =
        ap length (take_all size item (omega arith)) ∙ len in
      elim (dec_lt i slot) [
        | yes before ↦
            slice-write_at_before (slot * size) (take size item) _ (i * size) size
              (slots_apart i slot size before)
            ∙ slice-write_at_before (slot * size) (replicate size 0) block (i * size) size
                (slots_apart i slot size before)
        | no other ↦
            let after : slot * size + size ≤ i * size = slots_apart slot i size (omega arith) in
            ap (take size) (
              drop-write_at_after (slot * size) (take size item) _ (i * size) (omega arith)
              ∙ drop-write_at_after (slot * size) (replicate size 0) block (i * size)
                  (omega (arith, length-replicate {A = ℕ} size 0)))
      ]

module _ (size front rear : ℕ) (block : List ℕ) (v : IsValid size front rear block) where
  abbrev next : ℕ
  next = (rear + 1) % 3

  -- `EnDataQueue` on a full queue, which holds two blocks, returns -1 and changes nothing; both locks
  -- are free again.
  pub en_data_queue-full :
      (item : List ℕ)
      → count front rear ≡ 2
      → en_data_queue (some (live front rear block)) item size
        ≡ done (minus_one, some (live front rear block))
  unfolding en_data_queue full_data_sequeue
  en_data_queue-full item two =
      let full : (next == front) ≡ true = ground (arith, v.front_in, v.rear_in) in rw full

  -- `EnDataQueue` of a block of `size` bytes on a queue with fewer than two blocks returns 0, gives its
  -- lock back and appends the block; the queue stays valid. It neither faults nor waits.
  pub en_data_queue-append :
      (item : List ℕ)
      → length item ≡ size
      → count front rear < 2
      → (block' : List ℕ) × (en_data_queue (some (live front rear block)) item size
          ≡ done (pos 0, some (live front next block')))
        × IsValid size front next block'
        × (contents size front next block' ≡ contents size front rear block ++ (item ∷ []))
  unfolding en_data_queue full_data_sequeue en_publish en_write
  en_data_queue-append item len room =
      let free : (next == front) ≡ false = ground (arith, v.front_in, v.rear_in) in
      let inside : ltb (length block) (next * size + size) ≡ false =
        le→ltb _ _ (slot_fits next size (length block) (omega arith) v.block_size) in
      let whole = length-filled next size item block len (omega arith) v.block_size in
      let one_more : count front next ≡ suc (count front rear) =
        omega (arith, v.front_in, v.rear_in) in
      (
        filled next size item block,
        rw (free, inside),
        record { block_size = whole; front_in = v.front_in; rear_in = omega arith },
        ap (cells (λ i. slice (i * size) size (filled next size item block)) 3 (front + 1)) one_more
            ∙ cells-push (λ i. slice (i * size) size block)
                (λ i. slice (i * size) size (filled next size item block)) 3 item (count front rear)
                (front + 1) next (omega arith) (omega (arith, v.front_in, v.rear_in))
                (slice-filled_self next size item block len (omega arith) v.block_size)
                (slice-filled_ne next size item block len (omega arith) v.block_size),
      )

  -- `DeDataQueue` on an empty queue returns -1 and changes nothing.
  pub de_data_queue-empty :
      (wanted : Bool)
      → count front rear ≡ 0
      → de_data_queue (some (live front rear block)) wanted size
        ≡ done (minus_one, none, some (live front rear block))
  unfolding de_data_queue empty_data_sequeue
  de_data_queue-empty wanted zero_left =
      let empty : (front == rear) ≡ true = ground (arith, v.front_in, v.rear_in) in rw empty

  -- `DeDataQueue` on a queue with blocks returns 0, gives its lock back, hands out the oldest block if
  -- the caller wants it, and leaves the others in order; the queue stays valid.
  pub de_data_queue-pop :
      (wanted : Bool)
      → 0 < count front rear
      → (item : List ℕ) × (de_data_queue (some (live front rear block)) wanted size
          ≡ done
              (pos 0, if wanted then some item else none, some (live ((front + 1) % 3) rear block)))
        × IsValid size ((front + 1) % 3) rear block
        × (contents size front rear block ≡ item ∷ contents size ((front + 1) % 3) rear block)
  unfolding de_data_queue empty_data_sequeue de_read
  de_data_queue-pop wanted items =
      let slot : ℕ = (front + 1) % 3 in
      let busy : (front == rear) ≡ false = ground (arith, v.front_in, v.rear_in) in
      let inside : ltb (length block) (slot * size + size) ≡ false =
        le→ltb _ _ (slot_fits slot size (length block) (omega arith) v.block_size) in
      let one_less : count front rear ≡ suc (count slot rear) =
        omega (arith, v.front_in, v.rear_in) in
      (
        slice (slot * size) size block,
        elim (Bool-cases wanted) [ inl w ↦ rw (busy, inside, w) | inr w ↦ rw (busy, w) ],
        record { block_size = v.block_size; front_in = omega arith; rear_in = v.rear_in },
        ap (cells (λ i. slice (i * size) size block) 3 (front + 1)) one_less
            ∙ ap (λ t. slice (slot * size) size block ∷ t)
                (cells_of_slot (λ i. slice (i * size) size block) 3 (count slot rear)
                  (front + 1 + 1) (slot + 1) (omega arith)),
      )

-- The size is the number of blocks, but for an empty queue, whose size is given as 3.
pub get_sequeue_size-count :
    (size front rear : ℕ) (block : List ℕ)
    → IsValid size front rear block
    → get_sequeue_size (some (live front rear block))
      ≡ pos (if count front rear == 0 then 3 else count front rear)
unfolding get_sequeue_size
get_sequeue_size-count size front rear block v = ground (arith, v.front_in, v.rear_in)

-- `DeAllDataQueue` returns 0 and leaves an empty valid queue.
pub de_all_data_queue-empty :
    (size front rear : ℕ) (block : List ℕ)
    → IsValid size front rear block
    → (de_all_data_queue (some (live front rear block)) ≡ done (pos 0, some (live 0 0 block)))
      × IsValid size 0 0 block
      × (contents size 0 0 block ≡ [])
unfolding de_all_data_queue
de_all_data_queue-empty size front rear block v = (
  refl,
  record { block_size = v.block_size; front_in = omega arith; rear_in = omega arith },
  refl,
)
