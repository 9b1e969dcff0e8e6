-- ===== src/Tests/Nodes.antt =====
-- The linked queue on a small heap.
use test.Base.{ℕ, ◌≡◌, refl, none, some, List, [], ◌∷◌, ◌++◌, arith}
use test.Base.Int.{pos}
use test.Queue.Item.{Item}
use test.Queue.Linked.{Heap, update, Queue, pop_queue, push_queue}
use test.Queue.Linked.Laws.{Valid, pop_queue-Valid}
use test.Queue.Linked.Push.{push_queue-Valid}

abbrev first_item : Item
first_item = record { name = 97 ∷ []; num = pos 1 }

abbrev second_item : Item
second_item = record { name = 98 ∷ []; num = pos 2 }

-- nodes at 100 and 200
abbrev heap : Heap
heap =
    update (update (λ a. none) 200 (some (record { data_of = second_item; next = none }))) 100
      (some (record { data_of = first_item; next = some 200 }))

abbrev two_nodes : List (ℕ × Item)
two_nodes = (100, first_item) ∷ (200, second_item) ∷ []

abbrev two_items : Queue
two_items = record { head = some 100; rear = some 200; node_size = 2 }

two_items-Valid : Valid two_items heap two_nodes
two_items-Valid = (
  (refl, (some 200, refl, (refl, (none, refl, refl)))),
  refl,
  refl,
  ((omega arith, tt), (tt, tt)),
)

pop_queue-Valid_example :
    (q : Queue) × (h' : Heap) × (pop_queue (some two_items) heap
      ≡ some (pos 0, some first_item, some q, h'))
    × (h' 100 ≡ none)
    × Valid q h' ((200, second_item) ∷ [])
pop_queue-Valid_example =
    pop_queue-Valid (some 100) (some 200) 2 100 first_item ((200, second_item) ∷ []) heap
      (omega arith) two_items-Valid

push_queue-Valid_example :
    (q : Queue) × (h' : Heap) × (push_queue (some two_items) first_item (some 300) heap
      ≡ some (pos 0, some q, h'))
    × Valid q h' (two_nodes ++ ((300, first_item) ∷ []))
push_queue-Valid_example =
    push_queue-Valid (some 100) (some 200) 2 two_nodes heap 300 first_item (omega arith) refl
      two_items-Valid
