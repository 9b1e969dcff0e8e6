-- ===== src/Queue/Menu/Programs.antt =====
-- The four programs.
use test.Base.{ℕ, Bool, true, Option, none, some, List, replicate}
use test.Base.Int.{ℤ, pos}
use test.Queue.Item.{Item, no_item}
use test.Queue.Array
use test.Queue.Pointer
use test.Queue.Linked
use test.Queue.Sequeue
use test.Queue.Sequeue.{Sequeue, Run, done, fault, blocked}
use test.Queue.Menu.{Cmd, Line, Calls, menu}

-- `&my_queue` is not NULL, so the queue is there again behind a call.
abbrev pub again_there : {Q : Type 0} → Q → Option Q → Q
again_there q none = q
again_there q (some q') = q'

-- `n` behind `pop_queue`; it was cleared before.
abbrev pub or_cleared : Option Item → Item
or_cleared none = no_item
or_cleared (some item) = item

-- data_structure/queue_linear_arrary_test.c
abbrev pub array_queue_of : {A : Type 0} → Array.Queue → A × Option Array.Queue → Array.Queue
array_queue_of q (ret, q') = again_there q q'

abbrev pub array_popped : Array.Queue → ℤ × Option Item × Option Array.Queue → Item × Array.Queue
array_popped q (ret, item, q') = (or_cleared item, again_there q q')

unfoldable pub array_calls : Calls Item Array.Queue
array_calls = record {
  on_create = λ q. some q;
  on_push = λ item q. some (array_queue_of q (Array.push_queue (some q) item));
  on_pop = λ q. some (array_popped q (Array.pop_queue (some q)));
  on_destroy = λ q. some (array_queue_of q (Array.destroy_queue (some q)));
  size_of = λ q. some (pos (Array.get_queue_size (some q)));
}

-- `queue my_queue = { 0 }`
abbrev pub array_start : Array.Queue
array_start = record { head = 0; rear = 0; slots = replicate 3 no_item }

-- data_structure/queue_linear_pointer_test.c; `malloc` gives a block of three slots.
abbrev pub pointer_queue_of : Pointer.Queue → ℤ × Option Pointer.Queue → Pointer.Queue
pointer_queue_of q (ret, q') = again_there q q'

abbrev pub pointer_pushed : Pointer.Queue → Option (ℤ × Option Pointer.Queue) → Option Pointer.Queue
pointer_pushed q none = none
pointer_pushed q (some r) = some (pointer_queue_of q r)

abbrev pub pointer_popped :
    Pointer.Queue → Option (ℤ × Option Item × Option Pointer.Queue) → Option (Item × Pointer.Queue)
pointer_popped q none = none
pointer_popped q (some (ret, item, q')) = some (or_cleared item, again_there q q')

abbrev pub sized : Option ℕ → Option ℤ
sized none = none
sized (some n) = some (pos n)

unfoldable pub pointer_calls : List Item → Calls Item Pointer.Queue
pointer_calls block = record {
  on_create = λ q. some (pointer_queue_of q (Pointer.create_queue (some q) (pos 3) (some block)));
  on_push = λ item q. pointer_pushed q (Pointer.push_queue (some q) item);
  on_pop = λ q. pointer_popped q (Pointer.pop_queue (some q));
  on_destroy = λ q. pointer_pushed q (Pointer.destroy_queue (some q));
  size_of = λ q. sized (Pointer.get_queue_size (some q));
}

-- data_structure/queue_list_test.c, with the heap and what `malloc` returns on it
abbrev pub linked_kept :
    Linked.Queue
    → Option (ℤ × Option Linked.Queue × Linked.Heap)
    → Option (Linked.Queue × Linked.Heap)
linked_kept q none = none
linked_kept q (some (ret, q', h)) = some (again_there q q', h)

abbrev pub linked_popped :
    Linked.Queue
    → Option (ℤ × Option Item × Option Linked.Queue × Linked.Heap)
    → Option (Item × (Linked.Queue × Linked.Heap))
linked_popped q none = none
linked_popped q (some (ret, item, q', h)) = some (or_cleared item, (again_there q q', h))

abbrev pub linked_created : Linked.Queue → ℤ × Option Linked.Queue → Linked.Queue
linked_created q (ret, q') = again_there q q'

unfoldable pub linked_calls : (Linked.Heap → Option ℕ) → Calls Item (Linked.Queue × Linked.Heap)
linked_calls malloc = record {
  on_create = λ (q, h). some (linked_created q (Linked.create_queue (some q)), h);
  on_push = λ item (q, h). linked_kept q (Linked.push_queue (some q) item (malloc h) h);
  on_pop = λ (q, h). linked_popped q (Linked.pop_queue (some q) h);
  on_destroy = λ (q, h). linked_kept q (Linked.destroy_queue (some q) h);
  size_of = λ (q, h). some (pos (Linked.get_queue_size (some q)));
}

-- common/queue_test.c: an item is the bytes of a `node`, of which there are `size`; `my_queue` is NULL at the
-- begin, and a command 4 does nothing. A wait for ever counts as `none` too.
abbrev pub blocks_kept : Run (ℤ × Option Sequeue) → Option (Option Sequeue)
blocks_kept (done (ret, q)) = some q
blocks_kept fault = none
blocks_kept blocked = none

abbrev pub or_zeroes : ℕ → Option (List ℕ) → List ℕ
or_zeroes size none = replicate size 0
or_zeroes size (some bytes) = bytes

abbrev pub blocks_popped :
    ℕ → Run (ℤ × Option (List ℕ) × Option Sequeue) → Option (List ℕ × Option Sequeue)
blocks_popped size (done (ret, out, q)) = some (or_zeroes size out, q)
blocks_popped size fault = none
blocks_popped size blocked = none

unfoldable pub blocks_calls : ℕ → Bool → Option (List ℕ) → Calls (List ℕ) (Option Sequeue)
blocks_calls size first second = record {
  on_create = λ q. some (Sequeue.create_empty_data_sequeue first second);
  on_push = λ item q. blocks_kept (Sequeue.en_data_queue q item size);
  on_pop = λ q. blocks_popped size (Sequeue.de_data_queue q true size);
  on_destroy = λ q. some q;
  size_of = λ q. some (Sequeue.get_sequeue_size q);
}

-- `queue my_queue = { 0 }` of data_structure/queue_linear_pointer_test.c
abbrev pub pointer_start : Pointer.Queue
pointer_start = record { head = 0; rear = 0; slots = Pointer.null; node_size = 0 }

-- `main` of the four
abbrev pub array_program : List (Cmd Item) → Option (List (Line Item))
array_program cmds = menu array_calls cmds array_start

abbrev pub pointer_program : List Item → List (Cmd Item) → Option (List (Line Item))
pointer_program block cmds = menu (pointer_calls block) cmds pointer_start

unfoldable pub linked_program :
    (Linked.Heap → Option ℕ) → Linked.Heap → List (Cmd Item) → Option (List (Line Item))
linked_program malloc h cmds =
    menu (linked_calls malloc) cmds (record { head = none; rear = none; node_size = 0 }, h)

abbrev pub blocks_program :
    ℕ → Bool → Option (List ℕ) → List (Cmd (List ℕ)) → Option (List (Line (List ℕ)))
blocks_program size first second cmds = menu (blocks_calls size first second) cmds none
