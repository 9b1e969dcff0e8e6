-- ===== src/Queue/Array.antt =====
-- data_structure/queue_linear_arrary.c: a circular queue of three slots inside the structure. A queue
-- pointer is an `Option`, and a function that changes `*p_queue` returns it anew.
pub mod Laws
use test.Base.{
  ℕ, ◌+◌, ◌-◌, ◌%◌, ◌^◌, Bool, true, false, Option, none, some, List, ◌==◌, ltb, if◌then◌else◌,
  get_or, set,
}
use test.Base.Int.{ℤ, pos, minus_one}
use test.Queue.Item.{Item, no_item}

-- MAXSIZE
abbrev pub maxsize : ℕ
maxsize = 3

-- `head` and `rear` are `unsigned int`.
pub record Queue : Type 0 where
  pub head : ℕ
  pub rear : ℕ
  pub slots : List Item

pub empty_queue : Option Queue → Bool
empty_queue none = true
empty_queue (some q) = q.rear == q.head

pub full_queue : Option Queue → Bool
unfolding empty_queue
full_queue none = true
full_queue (some q) = if empty_queue (some q) then false else q.rear % maxsize == q.head % maxsize

pub get_queue_size : Option Queue → ℕ
unfolding empty_queue
get_queue_size none = 0
get_queue_size (some q) =
    if empty_queue (some q)
    then 0
    else if ltb (q.head % maxsize) (q.rear % maxsize)
    then q.rear % maxsize - q.head % maxsize
    else maxsize - q.head % maxsize + q.rear % maxsize

-- the write and `rear++`
unfoldable pub put : Queue → Item → Queue
put q item = record q { slots = set q.slots (q.rear % maxsize) item; rear = (q.rear + 1) % 2 ^ 32 }

unfoldable pub push_queue : Option Queue → Item → ℤ × Option Queue
unfolding full_queue put
push_queue none item = (minus_one, none)
push_queue (some q) item =
    if full_queue (some q) then (minus_one, some q) else (pos 0, some (put q item))

-- The second part is what goes to `*p_node`.
unfoldable pub pop_queue : Option Queue → ℤ × Option Item × Option Queue
unfolding empty_queue
pop_queue none = (minus_one, none, none)
pop_queue (some q) = if empty_queue (some q) then (minus_one, none, some q) else (
  pos 0,
  some (get_or q.slots (q.head % maxsize) no_item),
  some (record q { head = (q.head + 1) % 2 ^ 32 }),
)

unfoldable pub destroy_queue : Option Queue → ℤ × Option Queue
destroy_queue none = (minus_one, none)
destroy_queue (some q) = (pos 0, some (record q { head = 0; rear = 0 }))
