-- ===== src/Queue/Linked/Laws.antt =====
-- The linked queue holds its items in order.
use test.Base.{
  ℕ, suc, ◌<◌, ◌≡◌, ◌≢◌, refl, sym, ap, ◌∙◌, inl, inr, true, Option, none, some, List, [], ◌∷◌,
  ◌==◌, length, All, arith, Bool-cases,
}
use test.Base.Int.{pos}
use test.Queue.Item.{Item}
use test.Queue.Linked.{
  Node, Heap, update, Queue, decrement, take_head, pop_queue, free_rounds, after_free, empty_queue,
  destroy_queue,
}

-- From `p` on the heap holds these nodes, in order, and then NULL.
abbrev pub Chain : Heap → Option ℕ → List (ℕ × Item) → Type 0
Chain h p [] = p ≡ none
Chain h p ((a, x) ∷ cells) =
    (p ≡ some a)
    × ((next : Option ℕ) × (h a ≡ some (record { data_of = x; next = next })) × Chain h next cells)

abbrev pub Distinct : List (ℕ × Item) → Type 0
Distinct [] = Unit
Distinct ((a, x) ∷ cells) = All (λ (c : ℕ × Item). c.0 ≢ a) cells × Distinct cells

abbrev pub last_cell : ℕ × Item → List (ℕ × Item) → ℕ × Item
last_cell c [] = c
last_cell c (d ∷ cells) = last_cell d cells

-- `rear` is the last node, if there is one.
abbrev pub IsRear : Option ℕ → List (ℕ × Item) → Type 0
IsRear r [] = Unit
IsRear r (c ∷ cells) = r ≡ some (last_cell c cells).0

-- a queue with these nodes
abbrev pub Valid : Queue → Heap → List (ℕ × Item) → Type 0
Valid q h cells =
    Chain h q.head cells × IsRear q.rear cells × (q.node_size ≡ length cells) × Distinct cells

pub update_ne : (h : Heap) (a : ℕ) (v : Option Node) (b : ℕ) → b ≢ a → update h a v b ≡ h b
update_ne h a v b ne = elim (Bool-cases (b == a)) [
  | inl e ↦ absurd (ne (ground arith))
  | inr e ↦ rw e refl
]

-- A change elsewhere keeps a chain.
pub Chain-update :
    (h : Heap) (a : ℕ) (v : Option Node) (p : Option ℕ) (cells : List (ℕ × Item))
    → All (λ (c : ℕ × Item). c.0 ≢ a) cells
    → Chain h p cells
    → Chain (update h a v) p cells
Chain-update h a v p [] far e = e
Chain-update h a v p ((b, x) ∷ cells) far (e, (next, look, rest)) =
    (e, (next, update_ne h a v b far.0 ∙ look, Chain-update h a v next cells far.1 rest))

IsRear-tail :
    (r : Option ℕ) (c : ℕ × Item) (cells : List (ℕ × Item)) → IsRear r (c ∷ cells) → IsRear r cells
IsRear-tail r c [] e = tt
IsRear-tail r c (d ∷ cells) e = e

-- `pop_queue` on a valid queue of fewer than 2^31 items with a first one returns 0, hands that item out
-- and frees its node, and the others stay in order; the queue stays valid.
pub pop_queue-Valid :
    (head rear : Option ℕ) (node_size a : ℕ) (x : Item) (cells : List (ℕ × Item)) (h : Heap)
    → length cells < 2147483647
    → Valid (record { head = head; rear = rear; node_size = node_size }) h ((a, x) ∷ cells)
    → (q : Queue) × (h' : Heap) × (pop_queue
          (some (record { head = head; rear = rear; node_size = node_size }))
          h
        ≡ some (pos 0, some x, some q, h'))
      × (h' a ≡ none)
      × Valid q h' cells
unfolding pop_queue
pop_queue-Valid head rear node_size a x cells h bound
      ((e, (next, look, rest)), is_rear, size, apart) =
    let q : Queue = record { head = some a; rear = rear; node_size = node_size } in
    let freed : a == a ≡ true = ground arith in
    (
      record { head = next; rear = rear; node_size = decrement node_size },
      update h a none,
      ap (λ p. pop_queue (some (record { head = p; rear = rear; node_size = node_size })) h) e
          ∙ ap (take_head q a h) look,
      rw freed refl,
      (
        Chain-update h a none next cells apart.0 rest,
        IsRear-tail rear (a, x) cells is_rear,
        omega (arith, size, bound),
        apart.1,
      ),
    )

-- the rounds free all nodes but the last
free_rounds-leak :
    (h : Heap) (p : Option ℕ) (c : ℕ × Item) (cells : List (ℕ × Item))
    → Chain h p (c ∷ cells)
    → Distinct (c ∷ cells)
    → (h' : Heap) × (free_rounds (length cells) p h ≡ some (some (last_cell c cells).0, h'))
      × Chain h' (some (last_cell c cells).0) (last_cell c cells ∷ [])
unfolding free_rounds
free_rounds-leak h p (a, x) [] (e, found) apart = (h, ap (λ t. some (t, h)) e, (refl, found))
free_rounds-leak h p (a, x) (d ∷ cells) (e, (next, look, rest)) apart =
    let (h', freed, kept) =
      free_rounds-leak (update h a none) next d cells
        (Chain-update h a none next (d ∷ cells) apart.0 rest) apart.1 in
    (h', ap (λ t. free_rounds (suc (length cells)) t h) e ∙ ap go look ∙ freed, kept)
  where
    go : Option Node → Option (Option ℕ × Heap)
    go none = none
    go (some nd) = free_rounds (length cells) nd.next (update h a none)

-- `destroy_queue` of a valid queue with items, fewer than 2^31, returns 0 and frees all nodes but the
-- last, which stays allocated and at the head.
pub destroy_queue-leak :
    (head rear : Option ℕ) (node_size : ℕ) (c : ℕ × Item) (cells : List (ℕ × Item)) (h : Heap)
    → length cells < 2147483647
    → Valid (record { head = head; rear = rear; node_size = node_size }) h (c ∷ cells)
    → (h' : Heap) × (destroy_queue
          (some (record { head = head; rear = rear; node_size = node_size }))
          h
        ≡ some (
          pos 0,
          some (record { head = some (last_cell c cells).0; rear = rear; node_size = 0 }),
          h',
        ))
      × Chain h' (some (last_cell c cells).0) (last_cell c cells ∷ [])
unfolding destroy_queue empty_queue
destroy_queue-leak head rear node_size (a, x) cells h bound (chain, is_rear, size, apart) =
    let (h', freed, kept) = free_rounds-leak h head (a, x) cells chain apart in
    let rounds : decrement node_size ≡ length cells = omega (arith, size, bound) in
    let q : Queue = record { head = some a; rear = rear; node_size = node_size } in
    (
      h',
      ap (λ p. destroy_queue (some (record { head = p; rear = rear; node_size = node_size })) h)
            chain.0
          ∙ ap (λ p. after_free q (free_rounds (decrement node_size) p h)) (sym chain.0)
          ∙ ap (λ n. after_free q (free_rounds n head h)) rounds
          ∙ ap (after_free q) freed,
      kept,
    )
