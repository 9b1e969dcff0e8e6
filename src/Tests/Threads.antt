-- ===== src/Tests/Threads.antt =====
-- The block queue under two threads: a run in which the reader moves `front` while the writer stands
-- behind its test for a full queue.
use test.Base.{ℕ, ◌≡◌, refl, true, false, ◌⊎◌, List, [], ◌∷◌, ◌++◌}
use test.Queue.Sequeue.{full_data_sequeue, empty_data_sequeue, en_publish, en_write}
use test.Queue.Sequeue.Threads.{
  en_out, en_published, en_leaving, de_out, de_found, de_moved, Threads, en_lock, en_test, en_move,
  en_fill, en_unlock, de_lock, de_test, de_move, Reach, begin, later,
}
use test.Queue.Sequeue.Threads.Fifo.{waiting, threads-Fifo}
use test.Queue.Sequeue.Threads.Progress.{threads-GoesOn, EnGoesOn, DeGoesOn}
use test.Queue.Sequeue.Threads.Calls.{EnCalled, DeCalled, en_data_queue-Reach, de_data_queue-Reach}

-- three slots of two bytes
abbrev blank : List ℕ
blank = 0 ∷ 0 ∷ 0 ∷ 0 ∷ 0 ∷ 0 ∷ []

abbrev block_a : List ℕ
block_a = 1 ∷ 2 ∷ []

abbrev block_b : List ℕ
block_b = 3 ∷ 4 ∷ []

abbrev memory_a : List ℕ
memory_a = 0 ∷ 0 ∷ 1 ∷ 2 ∷ 0 ∷ 0 ∷ []

-- the first block is in its slot and its writer has not left
abbrev written : Threads
written = record {
  front = 0;
  rear = 1;
  block = memory_a;
  en = en_leaving;
  de = de_out;
  sent = block_a ∷ [];
  got = [];
  raced = false;
}

written-Reach : Reach 2 blank written
unfolding full_data_sequeue en_publish en_write
written-Reach =
    later
      (later (later (later begin (en_lock block_a refl refl)) (en_test block_a refl refl))
        (en_move block_a refl))
      (en_fill block_a memory_a refl refl)

-- the reader has found the block, and the writer has left
abbrev found : Threads
found = record written { en = en_out; de = de_found }

found-Reach : Reach 2 blank found
unfolding empty_data_sequeue
found-Reach =
    later (later (later written-Reach (de_lock refl)) (en_unlock refl)) (de_test refl refl)

-- both counters have moved, the reader has not copied and the writer has not filled
abbrev crossed : Threads
crossed = record found { front = 1; rear = 2; en = en_published block_b; de = de_moved }

crossed-Reach : Reach 2 blank crossed
unfolding full_data_sequeue en_publish
crossed-Reach =
    later
      (later (later (later found-Reach (en_lock block_b refl refl)) (en_test block_b refl refl))
        (de_move refl))
      (en_move block_b refl)

threads-Fifo_example : crossed.got ++ waiting 2 1 2 memory_a 1 1 ≡ crossed.sent
threads-Fifo_example = threads-Fifo 2 blank crossed refl crossed-Reach refl

threads-GoesOn_example :
    ((true ≡ false) ⊎ EnGoesOn 2 crossed) × ((true ≡ false) ⊎ DeGoesOn 2 crossed)
threads-GoesOn_example = threads-GoesOn 2 blank crossed refl crossed-Reach

en_data_queue-Reach_example : EnCalled 2 blank found block_b
en_data_queue-Reach_example = en_data_queue-Reach 2 blank found block_b refl found-Reach refl refl

de_data_queue-Reach_example : DeCalled 2 blank written
de_data_queue-Reach_example = de_data_queue-Reach 2 blank written refl written-Reach refl
