-- ===== src/Queue/Pointer.antt =====
-- data_structure/queue_linear_pointer.c: the circular queue over an allocated array. `none` is
-- undefined behaviour: a division by a `node_size` of 0, an access to a freed array, a second `free`.
pub mod Laws
use test.Base.{
  ℕ, zero, suc, ◌+◌, ◌-◌, ◌%◌, ◌^◌, Bool, true, false, Option, none, some, List, ◌==◌, ltb,
  if◌then◌else◌, get_or, set,
}
use test.Base.Int.{ℤ, pos, negsuc, minus_one}
use test.Queue.Item.{Item, no_item}

-- what `data` points to
pub data Slots : Type 0 where
  null : Slots
  live : List Item → Slots
  freed : Slots

pub record Queue : Type 0 where
  pub head : ℕ
  pub rear : ℕ
  pub slots : Slots
  pub node_size : ℕ

unfoldable pub is_null : Slots → Bool
is_null null = true
is_null (live s) = false
is_null freed = false

-- `a % n` on `unsigned int`
unfoldable pub rem : ℕ → ℕ → Option ℕ
rem a zero = none
rem a (suc n) = some (a % suc n)

abbrev pub bind {ℓ κ} : {A : Type ℓ} {B : Type κ} → Option A → (A → Option B) → Option B
bind none f = none
bind (some a) f = f a

unfoldable pub empty_queue : Option Queue → Bool
unfolding is_null
empty_queue none = true
empty_queue (some q) = if is_null q.slots then true else q.rear == q.head

unfoldable pub full_queue : Option Queue → Option Bool
unfolding empty_queue rem is_null
full_queue none = some true
full_queue (some q) =
    if is_null q.slots
    then some true
    else if empty_queue (some q)
    then some false
    else bind (rem q.rear q.node_size) λ r. bind (rem q.head q.node_size) λ h. some (r == h)

unfoldable pub get_queue_size : Option Queue → Option ℕ
unfolding empty_queue rem is_null
get_queue_size none = some 0
get_queue_size (some q) =
    if is_null q.slots
    then some 0
    else if empty_queue (some q)
    then some 0
    else bind (rem q.rear q.node_size) λ r.
      bind (rem q.head q.node_size) λ h. some (if ltb h r then r - h else q.node_size - h + r)

-- the array that `malloc` returned, if it did
unfoldable pub allocated : Option (List Item) → Slots
allocated none = null
allocated (some s) = live s

-- `create_queue`; `block` is what `malloc` returns. It is not tested.
unfoldable pub create_queue : Option Queue → ℤ → Option (List Item) → ℤ × Option Queue
unfolding allocated
create_queue none size block = (minus_one, none)
create_queue (some q) (negsuc n) block = (minus_one, some q)
create_queue (some q) (pos zero) block = (minus_one, some q)
create_queue (some q) (pos (suc n)) block =
    (pos 0, some (record { head = 0; rear = 0; slots = allocated block; node_size = suc n }))

-- `p_queue->data[i] = _node`
pub store : Slots → ℕ → Item → Option Slots
store null i item = none
store (live s) i item = some (live (set s i item))
store freed i item = none

pub load : Slots → ℕ → Option Item
load null i = none
load (live s) i = some (get_or s i no_item)
load freed i = none

unfoldable pub push_queue : Option Queue → Item → Option (ℤ × Option Queue)
unfolding full_queue rem store
push_queue none item = some (minus_one, none)
push_queue (some q) item = bind (full_queue (some q)) λ full.
    if full
    then some (minus_one, some q)
    else bind (rem q.rear q.node_size) λ i.
      bind (store q.slots i item)
        λ s. some (pos 0, some (record q { slots = s; rear = (q.rear + 1) % 2 ^ 32 }))

unfoldable pub pop_queue : Option Queue → Option (ℤ × Option Item × Option Queue)
unfolding empty_queue rem load
pop_queue none = some (minus_one, none, none)
pop_queue (some q) =
    if empty_queue (some q)
    then some (minus_one, none, some q)
    else bind (rem q.head q.node_size) λ i.
      bind (load q.slots i)
        λ item. some (pos 0, some item, some (record q { head = (q.head + 1) % 2 ^ 32 }))

-- `free`; the pointer keeps its value.
unfoldable pub free : Slots → Option Slots
free null = some null
free (live s) = some freed
free freed = none

unfoldable pub destroy_queue : Option Queue → Option (ℤ × Option Queue)
unfolding is_null free
destroy_queue none = some (minus_one, none)
destroy_queue (some q) =
    if is_null q.slots
    then some (minus_one, some q)
    else bind (free q.slots)
        λ s. some (pos 0, some (record { head = 0; rear = 0; slots = s; node_size = 0 }))
