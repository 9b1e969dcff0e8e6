-- ===== src/Tests/Queues.antt =====
-- The queues.
use test.Base.{ℕ, ◌≡◌, refl, true, none, some, List, [], ◌∷◌, arith}
use test.Base.Int.{pos, minus_one}
use test.Queue.Item.{Item}
use test.Queue.Array
use test.Queue.Array.Laws.{IsValid as IsArray}
use test.Queue.Sequeue.{done, en_publish, en_data_queue, de_data_queue}
use test.Queue.Sequeue.Laws.{IsValid as IsBlocks, contents as blocks}
use test.Queue.Sequeue.Laws.{live, en_data_queue-append, de_data_queue-empty, de_data_queue-pop}
use test.Queue.Sequeue.Race.{de_data_queue-stale}
use test.Queue.Pointer
use test.Queue.Pointer.{Slots}
use test.Queue.Pointer.Laws.{IsValid as IsPointer, queue}
use test.Queue.Pointer.Laws.{destroy_queue-dangles}

abbrev item : ℕ → Item
item n = record { name = n ∷ []; num = pos n }

abbrev items : List Item
items = item 1 ∷ item 2 ∷ item 3 ∷ []

-- two items, the older in slot 2
abbrev array_queue : Array.Queue
array_queue = record { head = 5; rear = 7; slots = items }

array_queue-IsValid : IsArray array_queue
array_queue-IsValid = record {
  slots = refl;
  order = omega arith;
  room = omega arith;
  word = omega arith;
}

-- one block of two bytes, in slot 2
abbrev memory : List ℕ
memory = 1 ∷ 2 ∷ 3 ∷ 4 ∷ 5 ∷ 6 ∷ []

memory-IsBlocks : IsBlocks 2 1 2 memory
memory-IsBlocks = record { block_size = refl; front_in = omega arith; rear_in = omega arith }

empty-IsBlocks : IsBlocks 2 1 1 memory
empty-IsBlocks = record { block_size = refl; front_in = omega arith; rear_in = omega arith }

full-IsBlocks : IsBlocks 2 1 0 memory
full-IsBlocks = record { block_size = refl; front_in = omega arith; rear_in = omega arith }

items-IsPointer : IsPointer 2 5 7 items
items-IsPointer = record {
  slots = refl;
  order = omega arith;
  room = omega arith;
  word = omega arith;
}

en_data_queue-append_example :
    (block' : List ℕ) × (en_data_queue (some (live 1 2 memory)) (8 ∷ 9 ∷ []) 2
      ≡ done (pos 0, some (live 1 0 block')))
    × IsBlocks 2 1 0 block'
    × (blocks 2 1 0 block' ≡ (5 ∷ 6 ∷ []) ∷ (8 ∷ 9 ∷ []) ∷ [])
en_data_queue-append_example =
    en_data_queue-append 2 1 2 memory memory-IsBlocks (8 ∷ 9 ∷ []) refl (omega arith)

de_data_queue-empty_example :
    de_data_queue (some (live 1 1 memory)) true 2 ≡ done (minus_one, none, some (live 1 1 memory))
de_data_queue-empty_example = de_data_queue-empty 2 1 1 memory empty-IsBlocks true refl

de_data_queue-pop_example :
    (out : List ℕ) × (de_data_queue (some (live 1 2 memory)) true 2
      ≡ done (pos 0, some out, some (live 2 2 memory)))
    × IsBlocks 2 2 2 memory
    × ((5 ∷ 6 ∷ []) ∷ [] ≡ out ∷ [])
de_data_queue-pop_example = de_data_queue-pop 2 1 2 memory memory-IsBlocks true (omega arith)

de_data_queue-stale_example :
    de_data_queue (some (record (en_publish (live 1 1 memory)) { en_queue_lock = true })) true 2
    ≡ done (pos 0, some (5 ∷ 6 ∷ []), some (record (live 2 2 memory) { en_queue_lock = true }))
de_data_queue-stale_example = de_data_queue-stale 2 1 1 memory empty-IsBlocks refl

destroy_queue-dangles_example :
    (q : Pointer.Queue) × (Pointer.destroy_queue (some (queue 2 5 7 items)) ≡ some (pos 0, some q))
    × ((new : Item) → Pointer.push_queue (some q) new ≡ none)
    × (Pointer.destroy_queue (some q) ≡ none)
    × (Pointer.pop_queue (some q) ≡ some (minus_one, none, some q))
destroy_queue-dangles_example = destroy_queue-dangles 2 5 7 items items-IsPointer
