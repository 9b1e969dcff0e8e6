-- ===== src/Queue/Array/Laws.antt =====
-- The array queue behaves as a FIFO list of at most three items, as long as its counters do not wrap.
use test.Base.{
  ℕ, suc, ◌+◌, ◌-◌, ◌%◌, ◌^◌, ◌≤◌, ◌<◌, ◌≡◌, ◌↔◌, ◌⊎◌, refl, ap, ◌∙◌, sym, true, Option, none, some,
  List, [], ◌∷◌, ◌++◌, ◌==◌, get_or, set, length, arith, length-set, get_or-set_self, get_or-set_ne,
  Bool-cases, inl, inr,
}
use test.Base.Int.{ℤ, pos, minus_one}
use test.Queue.Cells.{cells, cells-push, length-cells}
use test.Queue.Item.{Item, no_item}
use test.Queue.Array.{Queue, empty_queue, full_queue, get_queue_size, put, push_queue, pop_queue}

-- Three slots, and `rear` at most three ahead of `head`.
pub record IsValid (q : Queue) : Type 0 where
  pub slots : length q.slots ≡ 3
  pub order : q.head ≤ q.rear
  pub room : q.rear ≤ q.head + 3
  pub word : q.rear < 2 ^ 32

-- the items that are queued, oldest first
abbrev pub contents : Queue → List Item
contents q = cells (λ i. get_or q.slots i no_item) 3 q.head (q.rear - q.head)

pub length-contents : (q : Queue) → length (contents q) ≡ q.rear - q.head
length-contents q = length-cells (λ i. get_or q.slots i no_item) 3 q.head (q.rear - q.head)

-- The tests and the size are those of the list.
pub get_queue_size-contents :
    (q : Queue)
    → IsValid q
    → (get_queue_size (some q) ≡ length (contents q))
      × ((empty_queue (some q) ≡ true) ↔ (length (contents q) ≡ 0))
      × ((full_queue (some q) ≡ true) ↔ (length (contents q) ≡ 3))
unfolding get_queue_size full_queue empty_queue
get_queue_size-contents q v = (
  ground (arith, length-contents q),
  (λ h. ground (arith, length-contents q), λ h. ground (arith, length-contents q)),
  (λ h. ground (arith, length-contents q), λ h. ground (arith, length-contents q)),
)

-- A write behind the window adds the item.
put-contents :
    (q : Queue) (item : Item)
    → IsValid q
    → q.rear - q.head < 3
    → q.rear + 1 < 2 ^ 32
    → IsValid (put q item) × (contents (put q item) ≡ contents q ++ (item ∷ []))
unfolding put
put-contents q item v room word =
    let slot : ℕ = q.rear % 3 in
    let below : slot < length q.slots = omega (arith, v.slots) in
    let more : (q.rear + 1) % 2 ^ 32 - q.head ≡ suc (q.rear - q.head) = omega (arith, v.order) in
    (
      record {
        slots = length-set q.slots slot item ∙ v.slots;
        order = omega (arith, v.order);
        room = omega (arith, v.order);
        word = omega arith;
      },
      ap (cells (λ i. get_or (set q.slots slot item) i no_item) 3 q.head) more
          ∙ cells-push (λ i. get_or q.slots i no_item)
              (λ i. get_or (set q.slots slot item) i no_item) 3 item (q.rear - q.head) q.head slot
              room (ap (λ k. k % 3) (omega (arith, v.order)))
              (get_or-set_self q.slots slot item no_item below)
              (λ i ne. get_or-set_ne q.slots item no_item (λ e. ne (sym e))),
    )

-- What `push_queue` promises of a valid queue: at three items it refuses and changes nothing, and
-- otherwise it appends the item.
abbrev pub Pushed : Queue → Item → ℤ × Option Queue → Type 0
Pushed q item (ret, none) = ⊥
Pushed q item (ret, some q') =
    IsValid q'
    × ((length (contents q) ≡ 3) × (ret ≡ minus_one) × (q' ≡ q)
        ⊎ (length (contents q) < 3) × (ret ≡ pos 0) × (contents q' ≡ contents q ++ (item ∷ [])))

-- `push_queue` on a valid queue whose `rear` is not the largest `unsigned int`: with three items it
-- returns -1 and changes nothing; with fewer it returns 0 and appends the item. The queue stays valid.
pub push_queue-Pushed :
    (q : Queue) (item : Item)
    → IsValid q
    → q.rear + 1 < 2 ^ 32
    → Pushed q item (push_queue (some q) item)
unfolding push_queue
push_queue-Pushed q item v word = elim (Bool-cases (full_queue (some q))) [
  | inl full ↦
      let three = (get_queue_size-contents q v).2.0 full in rw full (v, inl (three, refl, refl))
  | inr free ↦
      let some_room : q.rear - q.head < 3 =
        ground (arith, free, get_queue_size-contents q v, length-contents q, v.order, v.room) in
      let (v', e) = put-contents q item v some_room word in
      rw free (v', inr (rw (length-contents q) some_room, refl, e))
]

-- What `pop_queue` promises of a valid queue.
abbrev pub Popped : Queue → ℤ × Option Item × Option Queue → Type 0
Popped q (ret, out, none) = ⊥
Popped q (ret, none, some q') = IsValid q' × (contents q ≡ []) × (ret ≡ minus_one) × (q' ≡ q)
Popped q (ret, some item, some q') = IsValid q' × (contents q ≡ item ∷ contents q') × (ret ≡ pos 0)

-- `pop_queue` on a valid queue: with no item it returns -1 and changes nothing; else it returns 0,
-- hands out the oldest item and leaves the others in order. The queue stays valid.
pub pop_queue-Popped : (q : Queue) → IsValid q → Popped q (pop_queue (some q))
unfolding pop_queue empty_queue
pop_queue-Popped q v = elim (Bool-cases (q.rear == q.head)) [
  | inl empty ↦
      let none_left : q.rear - q.head ≡ 0 = ground arith in
      rw empty (v, ap (cells (λ i. get_or q.slots i no_item) 3 q.head) none_left, refl, refl)
  | inr items ↦
      let next : (q.head + 1) % 2 ^ 32 ≡ q.head + 1 = ground (arith, v.order, v.word) in
      let more : q.rear - q.head ≡ suc (q.rear - (q.head + 1)) = ground (arith, v.order) in
      rw items (
        record {
          slots = v.slots;
          order = ground (arith, v.order, next);
          room = omega (arith, v.room, next);
          word = v.word;
        },
        rw (next, more) refl,
        refl,
      )
]

-- After 2^32 - 1 pushes and as many pops the queue is empty, `rear` wraps, and one push makes
-- the code take it for a full queue of three items.
pub push_queue-wraps :
    (slots : List Item) (item : Item)
    → let q : Queue = record { head = 2 ^ 32 - 1; rear = 2 ^ 32 - 1; slots = slots } in
      (empty_queue (some q) ≡ true)
      × ((push_queue (some q) item).0 ≡ pos 0)
      × (get_queue_size (push_queue (some q) item).1 ≡ 3)
      × (full_queue (push_queue (some q) item).1 ≡ true)
unfolding empty_queue push_queue get_queue_size full_queue
push_queue-wraps slots item = (refl, refl, refl, refl)
