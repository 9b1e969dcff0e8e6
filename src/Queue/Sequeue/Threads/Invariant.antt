-- ===== src/Queue/Sequeue/Threads/Invariant.antt =====
-- What holds of the queue in every reachable state, races or not.
use test.Base.{
  ℕ, ◌+◌, ◌*◌, ◌%◌, ◌<◌, ◌≡◌, ◌≢◌, ◌∙◌, refl, subst, sym, ap, false, none, some, slice, List, [],
  ltb, length, arith, le→ltb,
}
use test.Queue.Sequeue.{
  Sequeue, Run, done, fault, blocked, is_one, en_publish, en_write, full_data_sequeue,
  empty_data_sequeue, de_read,
}
use test.Queue.Sequeue.Laws.{slot_fits, filled, length-filled}
use test.Queue.Sequeue.Threads.{
  EnPc, en_out, en_locked, en_room, en_published, en_leaving, DePc, de_out, de_locked, de_found,
  de_moved, de_leaving, Threads, queue_of, Step, en_lock, en_full, en_test, en_move, en_fill,
  en_unlock, de_lock, de_empty, de_test, de_move, de_copy, de_unlock, Reach, begin, later,
}

-- The block of the thread in `EnDataQueue` has `size` bytes; behind the test there is still room.
abbrev pub EnFits : ℕ → ℕ → ℕ → EnPc → Type 0
EnFits size front rear en_out = Unit
EnFits size front rear (en_locked item) = length item ≡ size
EnFits size front rear (en_room item) = (length item ≡ size) × ((rear + 1) % 3 ≢ front)
EnFits size front rear (en_published item) = length item ≡ size
EnFits size front rear en_leaving = Unit

-- Behind the test of `DeDataQueue` there is still a block.
abbrev pub DeFits : ℕ → ℕ → DePc → Type 0
DeFits front rear de_found = front ≢ rear
DeFits front rear _ = Unit

pub record Inv (size : ℕ) (s : Threads) : Type 0 where
  pub block_size : length s.block ≡ 3 * size
  pub front_in : s.front < 3
  pub rear_in : s.rear < 3
  pub en_fits : EnFits size s.front s.rear s.en
  pub de_fits : DeFits s.front s.rear s.de

-- What the tests say.
pub has_room :
    (s : Threads)
    → is_one (full_data_sequeue (some (queue_of s))) ≡ false
    → (s.rear + 1) % 3 ≢ s.front
unfolding full_data_sequeue
has_room s e = ground arith

pub has_block :
    (s : Threads) → is_one (empty_data_sequeue (some (queue_of s))) ≡ false → s.front ≢ s.rear
unfolding empty_data_sequeue
has_block s e none_left = ground arith

abbrev block_of : Run Sequeue → List ℕ
block_of (done q) = elim q.bytes [ none ↦ [] | some b ↦ b ]
block_of fault = []
block_of blocked = []

-- The copy goes to the slot at `rear`, which is inside the block.
pub en_write-filled :
    (size : ℕ) (item : List ℕ) (s : Threads)
    → length s.block ≡ 3 * size
    → s.rear < 3
    → en_write (queue_of s) item size
      ≡ done (queue_of (record s { block = filled s.rear size item s.block }))
unfolding en_write
en_write-filled size item s whole inside =
    let fits : ltb (length s.block) (s.rear * size + size) ≡ false =
      le→ltb _ _ (slot_fits s.rear size (length s.block) inside whole) in
    rw fits refl

pub fill_block :
    (size : ℕ) (item block : List ℕ) (s : Threads)
    → en_write (queue_of s) item size ≡ done (queue_of (record s { block = block }))
    → length s.block ≡ 3 * size
    → s.rear < 3
    → block ≡ filled s.rear size item s.block
fill_block size item block s e whole inside =
    ap block_of (sym e ∙ en_write-filled size item s whole inside)

-- The slot at `front` is inside the block too.
pub de_read_slot :
    (size : ℕ) (s : Threads)
    → length s.block ≡ 3 * size
    → s.front < 3
    → de_read (queue_of s) size ≡ done (slice (s.front * size) size s.block)
unfolding de_read
de_read_slot size s whole inside =
    let fits : ltb (length s.block) (s.front * size + size) ≡ false =
      le→ltb _ _ (slot_fits s.front size (length s.block) inside whole) in
    rw fits refl

-- Each end finds its claim again after a step of the other.
EnFits-front :
    (size front rear : ℕ) (pc : EnPc)
    → front < 3
    → rear < 3
    → front ≢ rear
    → EnFits size front rear pc
    → EnFits size ((front + 1) % 3) rear pc
EnFits-front size front rear en_out f r ne e = e
EnFits-front size front rear (en_locked item) f r ne e = e
EnFits-front size front rear (en_room item) f r ne (len, room) = (len, λ q. omega (arith, q, ne))
EnFits-front size front rear (en_published item) f r ne e = e
EnFits-front size front rear en_leaving f r ne e = e

DeFits-rear :
    (front rear : ℕ) (pc : DePc)
    → (rear + 1) % 3 ≢ front
    → DeFits front rear pc
    → DeFits front ((rear + 1) % 3) pc
DeFits-rear front rear de_out room d = d
DeFits-rear front rear de_locked room d = d
DeFits-rear front rear de_found room d = λ q. room (sym q)
DeFits-rear front rear de_moved room d = d
DeFits-rear front rear de_leaving room d = d

pub Step-Inv : {size : ℕ} {s t : Threads} → Step size s t → Inv size s → Inv size t
unfolding en_publish
Step-Inv (en_lock item e len) inv = record {
  block_size = inv.block_size;
  front_in = inv.front_in;
  rear_in = inv.rear_in;
  en_fits = len;
  de_fits = inv.de_fits;
}
Step-Inv (en_full item e full) inv = record {
  block_size = inv.block_size;
  front_in = inv.front_in;
  rear_in = inv.rear_in;
  en_fits = tt;
  de_fits = inv.de_fits;
}
Step-Inv {size} {s} (en_test item e room) inv = record {
  block_size = inv.block_size;
  front_in = inv.front_in;
  rear_in = inv.rear_in;
  en_fits = (subst (EnFits size s.front s.rear) e inv.en_fits, has_room s room);
  de_fits = inv.de_fits;
}
Step-Inv {size} {s} (en_move item e) inv =
    let (len, room) = subst (EnFits size s.front s.rear) e inv.en_fits in
    record {
      block_size = inv.block_size;
      front_in = inv.front_in;
      rear_in = omega arith;
      en_fits = len;
      de_fits = DeFits-rear s.front s.rear s.de room inv.de_fits;
    }
Step-Inv {size} {s} (en_fill item block e ran) inv =
    let len : length item ≡ size = subst (EnFits size s.front s.rear) e inv.en_fits in
    record {
      block_size =
          ap length (fill_block size item block s ran inv.block_size inv.rear_in)
          ∙ length-filled s.rear size item s.block len inv.rear_in inv.block_size;
      front_in = inv.front_in;
      rear_in = inv.rear_in;
      en_fits = tt;
      de_fits = inv.de_fits;
    }
Step-Inv (en_unlock e) inv = record {
  block_size = inv.block_size;
  front_in = inv.front_in;
  rear_in = inv.rear_in;
  en_fits = tt;
  de_fits = inv.de_fits;
}
Step-Inv (de_lock e) inv = record {
  block_size = inv.block_size;
  front_in = inv.front_in;
  rear_in = inv.rear_in;
  en_fits = inv.en_fits;
  de_fits = tt;
}
Step-Inv (de_empty e none_left) inv = record {
  block_size = inv.block_size;
  front_in = inv.front_in;
  rear_in = inv.rear_in;
  en_fits = inv.en_fits;
  de_fits = tt;
}
Step-Inv {size} {s} (de_test e some_left) inv = record {
  block_size = inv.block_size;
  front_in = inv.front_in;
  rear_in = inv.rear_in;
  en_fits = inv.en_fits;
  de_fits = has_block s some_left;
}
Step-Inv {size} {s} (de_move e) inv =
    let found : s.front ≢ s.rear = subst (DeFits s.front s.rear) e inv.de_fits in
    record {
      block_size = inv.block_size;
      front_in = omega arith;
      rear_in = inv.rear_in;
      en_fits = EnFits-front size s.front s.rear s.en inv.front_in inv.rear_in found inv.en_fits;
      de_fits = tt;
    }
Step-Inv (de_copy out e ran) inv = record {
  block_size = inv.block_size;
  front_in = inv.front_in;
  rear_in = inv.rear_in;
  en_fits = inv.en_fits;
  de_fits = tt;
}
Step-Inv (de_unlock e) inv = record {
  block_size = inv.block_size;
  front_in = inv.front_in;
  rear_in = inv.rear_in;
  en_fits = inv.en_fits;
  de_fits = tt;
}

pub Reach-Inv :
    {size : ℕ} {block : List ℕ} {s : Threads}
    → length block ≡ 3 * size
    → Reach size block s
    → Inv size s
Reach-Inv whole begin = record {
  block_size = whole;
  front_in = omega arith;
  rear_in = omega arith;
  en_fits = tt;
  de_fits = tt;
}
Reach-Inv whole (later r st) = Step-Inv st (Reach-Inv whole r)
