-- ===== src/Queue/Linked.antt =====
-- The linked queue of data_structure/queue_list.c, over a heap of nodes. `none` is undefined behaviour:
-- an access through NULL or to a node that is not there. MAXSIZE is not defined, so no queue is full.
pub mod Laws
pub mod Push
use test.Base.{
  ℕ, zero, suc, ◌+◌, ◌%◌, ◌^◌, Bool, true, false, Option, none, some, List, [], ◌∷◌, ◌==◌,
  if◌then◌else◌,
}
use test.Base.Int.{ℤ, pos, minus_one}
use test.Queue.Item.{Item}

pub record Node : Type 0 where
  pub data_of : Item
  pub next : Option ℕ

-- the nodes that are allocated
abbrev pub Heap : Type 0
Heap = ℕ → Option Node

abbrev pub update : Heap → ℕ → Option Node → Heap
update h a v b = if b == a then v else h b

-- `node_size` by its 32 bits
pub record Queue : Type 0 where
  pub head : Option ℕ
  pub rear : Option ℕ
  pub node_size : ℕ

pub empty_queue : Option Queue → Bool
empty_queue none = true
empty_queue (some q) = elim q.head [ none ↦ true | some a ↦ false ]

pub get_queue_size : Option Queue → ℕ
unfolding empty_queue
get_queue_size none = 0
get_queue_size (some q) = if empty_queue (some q) then 0 else q.node_size

pub create_queue : Option Queue → ℤ × Option Queue
create_queue none = (minus_one, none)
create_queue (some q) = (pos 0, some (record { head = none; rear = none; node_size = 0 }))

abbrev pub increment : ℕ → ℕ
increment n = (n + 1) % 2 ^ 32

abbrev pub decrement : ℕ → ℕ
decrement n = (n + 4294967295) % 2 ^ 32

-- `p_queue->rear->next = temp; p_queue->rear = temp`
abbrev pub link_rear : Queue → ℕ → Heap → Option ℕ → Option (ℤ × Option Queue × Heap)
link_rear q temp h none = none
link_rear q temp h (some r) = elim (h r) [
  | none ↦ none
  | some last ↦ some (
    pos 0,
    some (record q { rear = some temp; node_size = increment q.node_size }),
    update h r (some (record last { next = some temp })),
  )
]

-- `push_queue`; `temp` is what `malloc` returns, and a NULL is written through.
pub push_queue : Option Queue → Item → Option ℕ → Heap → Option (ℤ × Option Queue × Heap)
push_queue none p_data temp h = some (minus_one, none, h)
push_queue (some q) p_data none h = none
push_queue (some q) p_data (some temp) h =
    let h1 : Heap = update h temp (some (record { data_of = p_data; next = none })) in
    elim q.head [
      | none ↦ some (
        pos 0,
        some (record { head = some temp; rear = some temp; node_size = increment q.node_size }),
        h1,
      )
      | some a ↦ link_rear q temp h1 q.rear
    ]

-- the head node is read, unlinked and freed
abbrev pub take_head :
    Queue → ℕ → Heap → Option Node → Option (ℤ × Option Item × Option Queue × Heap)
take_head q a h none = none
take_head q a h (some nd) = some (
  pos 0,
  some nd.data_of,
  some (record q { head = nd.next; node_size = decrement q.node_size }),
  update h a none,
)

pub pop_queue : Option Queue → Heap → Option (ℤ × Option Item × Option Queue × Heap)
pop_queue none h = some (minus_one, none, none, h)
pop_queue (some q) h = elim q.head [
  | none ↦ some (minus_one, none, some q, h)
  | some a ↦ take_head q a h (h a)
]

-- one round of the loop that frees, and the rounds that are left
unfoldable pub free_rounds : ℕ → Option ℕ → Heap → Option (Option ℕ × Heap)
free_rounds zero head h = some (head, h)
free_rounds (suc rounds) none h = none
free_rounds (suc rounds) (some a) h = elim (h a) [
  | none ↦ none
  | some nd ↦ free_rounds rounds nd.next (update h a none)
]

abbrev pub after_free : Queue → Option (Option ℕ × Heap) → Option (ℤ × Option Queue × Heap)
after_free q none = none
after_free q (some (head, h)) = some (pos 0, some (record q { head = head; node_size = 0 }), h)

-- `destroy_queue`: `while (--node_size)` makes as many rounds as the counter has left after a decrement.
pub destroy_queue : Option Queue → Heap → Option (ℤ × Option Queue × Heap)
unfolding empty_queue free_rounds
destroy_queue none h = some (pos 0, none, h)
destroy_queue (some q) h =
    if empty_queue (some q)
    then some (pos 0, some q, h)
    else after_free q (free_rounds (decrement q.node_size) q.head h)
