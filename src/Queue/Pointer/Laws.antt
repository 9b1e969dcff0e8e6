-- ===== src/Queue/Pointer/Laws.antt =====
-- The allocated queue behaves as a FIFO list of at most `node_size` items, as long as its counters do
-- not wrap and it was not destroyed.
use native.Mathlib.Nat.{mod-lt, add-mod_right}
use test.Base.{
  ℕ, suc, ◌+◌, ◌-◌, ◌%◌, ◌^◌, ◌≤◌, ◌<◌, ◌≡◌, ◌≢◌, refl, ap, ◌∙◌, sym, true, false, none, some, List,
  [], ◌∷◌, ◌++◌, ◌==◌, get_or, set, length, arith, length-set, get_or-set_self, get_or-set_ne,
  Bool-cases, inl, inr,
}
use test.Base.Int.{pos, minus_one}
use test.Queue.Cells.{cells, cells-push, length-cells, slot-ne}
use test.Queue.Item.{Item, no_item}
use test.Queue.Pointer.{
  Queue, live, freed, is_null, rem, empty_queue, full_queue, create_queue, store, load, push_queue,
  pop_queue, destroy_queue,
}

-- a queue over the array `s` of `suc m` slots
abbrev pub queue : ℕ → ℕ → ℕ → List Item → Queue
queue m head rear s = record { head = head; rear = rear; slots = live s; node_size = suc m }

pub record IsValid (m head rear : ℕ) (s : List Item) : Type 0 where
  pub slots : length s ≡ suc m
  pub order : head ≤ rear
  pub room : rear ≤ head + suc m
  pub word : rear < 2 ^ 32

-- the items that are queued, oldest first
abbrev pub contents : ℕ → ℕ → ℕ → List Item → List Item
contents m head rear s = cells (λ i. get_or s i no_item) (suc m) head (rear - head)

module _ (m head rear : ℕ) (s : List Item) (v : IsValid m head rear s) where
  -- The counters meet in one slot only when they are equal or a whole round apart.
  same_slot : rear ≢ head → (rear - head < suc m) → (rear % suc m == head % suc m) ≡ false
  same_slot ne part =
      let apart = slot-ne (suc m) head (rear - head) (omega (arith, v.order)) part in
      let sum : head + (rear - head) ≡ rear = omega (arith, v.order) in
      let apart' : rear % suc m ≢ head % suc m = λ e. apart (ap (λ k. k % suc m) sum ∙ e) in
      ground arith

  full_round : rear ≡ head + suc m → rear % suc m ≡ head % suc m
  full_round e = ap (λ k. k % suc m) e ∙ add-mod_right head (suc m)

  -- `full_queue` is the test for `node_size` items.
  pub full_queue-contents :
      (rear - head < suc m → full_queue (some (queue m head rear s)) ≡ some false)
      × (rear - head ≡ suc m → full_queue (some (queue m head rear s)) ≡ some true)
  unfolding full_queue empty_queue is_null rem
  full_queue-contents = (
    λ part. elim (Bool-cases (rear == head)) [
      | inl e ↦ rw e
      | inr ne ↦ rw (ne, same_slot (ground arith) part)
    ],
    λ all.
        let ne : (rear == head) ≡ false = ground (arith, v.order) in
        let meet = full_round (omega (arith, v.order)) in rw (ne, meet) (ground arith),
  )

  -- `push_queue` on a valid queue whose `rear` is not the largest `unsigned int`: with `node_size`
  -- items it returns -1 and changes nothing; with fewer it returns 0 and appends the item, and the
  -- queue stays valid.
  pub push_queue-contents :
      (item : Item)
      → rear + 1 < 2 ^ 32
      → (length (contents m head rear s) ≡ suc m
          → push_queue (some (queue m head rear s)) item
            ≡ some (minus_one, some (queue m head rear s)))
        × (length (contents m head rear s) < suc m
            → (s' : List Item) × (push_queue (some (queue m head rear s)) item
                ≡ some (pos 0, some (queue m head (rear + 1) s')))
              × IsValid m head (rear + 1) s'
              × (contents m head (rear + 1) s' ≡ contents m head rear s ++ (item ∷ [])))
  unfolding push_queue rem store
  push_queue-contents item word =
      let size = length-cells (λ i. get_or s i no_item) (suc m) head (rear - head) in
      let slot : ℕ = rear % suc m in
      let below : slot < length s = omega (arith, v.slots, mod-lt rear {m = suc m} (omega arith)) in
      let no_wrap : (rear + 1) % 2 ^ 32 ≡ rear + 1 = omega arith in
      let one_more : rear + 1 - head ≡ suc (rear - head) = omega (arith, v.order) in
      (
        λ all. rw (full_queue-contents.1 (sym size ∙ all)),
        λ part. (
          set s slot item,
          rw (full_queue-contents.0 (omega (arith, size)), no_wrap),
          record {
            slots = length-set s slot item ∙ v.slots;
            order = omega (arith, v.order);
            room = omega (arith, v.order, size);
            word = word;
          },
          ap (cells (λ i. get_or (set s slot item) i no_item) (suc m) head) one_more
              ∙ cells-push (λ i. get_or s i no_item) (λ i. get_or (set s slot item) i no_item)
                  (suc m) item (rear - head) head slot (omega (arith, size))
                  (ap (λ k. k % suc m) (omega (arith, v.order)))
                  (get_or-set_self s slot item no_item below)
                  (λ i ne. get_or-set_ne s item no_item (λ e. ne (sym e))),
        ),
      )

  -- `pop_queue` on a valid queue: with no item it returns -1 and changes nothing; else it returns 0,
  -- hands out the oldest item and leaves the others in order, and the queue stays valid.
  pub pop_queue-contents :
      (contents m head rear s ≡ []
        → pop_queue (some (queue m head rear s))
          ≡ some (minus_one, none, some (queue m head rear s)))
      × (0 < length (contents m head rear s)
          → (item : Item) × (pop_queue (some (queue m head rear s))
              ≡ some (pos 0, some item, some (queue m (head + 1) rear s)))
            × IsValid m (head + 1) rear s
            × (contents m head rear s ≡ item ∷ contents m (head + 1) rear s))
  unfolding pop_queue empty_queue rem load is_null
  pop_queue-contents =
      let size = length-cells (λ i. get_or s i no_item) (suc m) head (rear - head) in
      (
        λ e.
            let empty : (rear == head) ≡ true = ground (arith, v.order, size, ap length e) in
            rw empty,
        λ items.
            let busy : (rear == head) ≡ false = ground (arith, v.order, size) in
            let no_wrap : (head + 1) % 2 ^ 32 ≡ head + 1 = omega (arith, v.order, v.word, size) in
            let one_less : rear - head ≡ suc (rear - (head + 1)) = omega (arith, v.order, size) in
            (
              get_or s (head % suc m) no_item,
              rw (busy, no_wrap),
              record {
                slots = v.slots;
                order = omega (arith, v.order, size);
                room = omega (arith, v.room);
                word = v.word;
              },
              ap (cells (λ i. get_or s i no_item) (suc m) head) one_less,
            ),
      )

  -- After `destroy_queue` of a valid queue, which returns 0, a `push_queue` divides by a `node_size` of
  -- 0 or writes to the freed array, and a second `destroy_queue` frees the array again; `pop_queue`
  -- alone is harmless and returns -1.
  pub destroy_queue-dangles :
      (q : Queue) × (destroy_queue (some (queue m head rear s)) ≡ some (pos 0, some q))
      × ((item : Item) → push_queue (some q) item ≡ none)
      × (destroy_queue (some q) ≡ none)
      × (pop_queue (some q) ≡ some (minus_one, none, some q))
  unfolding destroy_queue push_queue pop_queue empty_queue full_queue
  destroy_queue-dangles =
      (record { head = 0; rear = 0; slots = freed; node_size = 0 }, refl, λ item. refl, refl, refl)

-- `create_queue` with a positive size, when `malloc` returns an array of that size, makes an empty valid
-- queue; when `malloc` fails it returns 0 all the same, and the queue then refuses every item.
pub create_queue-IsValid :
    (q : Queue) (m : ℕ) (block : List Item)
    → length block ≡ suc m
    → (create_queue (some q) (pos (suc m)) (some block) ≡ (pos 0, some (queue m 0 0 block)))
      × IsValid m 0 0 block
      × (contents m 0 0 block ≡ [])
      × ((create_queue (some q) (pos (suc m)) none).0 ≡ pos 0)
      × ((item : Item)
          → push_queue (create_queue (some q) (pos (suc m)) none).1 item
            ≡ some (minus_one, (create_queue (some q) (pos (suc m)) none).1))
unfolding create_queue push_queue full_queue
create_queue-IsValid q m block e = (
  refl,
  record { slots = e; order = omega arith; room = omega arith; word = omega arith },
  refl,
  refl,
  λ item. refl,
)
