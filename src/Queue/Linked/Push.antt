-- ===== src/Queue/Linked/Push.antt =====
-- `push_queue` of the linked queue appends.
use test.Base.{
  ℕ, ◌<◌, ◌≡◌, ◌≢◌, refl, sym, ap, ◌∙◌, true, Option, none, some, List, [], ◌∷◌, ◌++◌, ◌==◌, length,
  All, arith, length-append,
}
use test.Base.Int.{ℤ, pos}
use test.Queue.Item.{Item}
use test.Queue.Linked.{Node, Heap, update, Queue, increment, link_rear, push_queue}
use test.Queue.Linked.Laws.{Chain, Distinct, last_cell, Valid, update_ne, Chain-update}

update_self : (h : Heap) (a : ℕ) (v : Option Node) → update h a v a ≡ v
update_self h a v = let same : a == a ≡ true = ground arith in rw same refl

-- A node that is not allocated is none of a chain.
Chain-far :
    (h : Heap) (temp : ℕ) (p : Option ℕ) (cells : List (ℕ × Item))
    → h temp ≡ none
    → Chain h p cells
    → All (λ (c : ℕ × Item). c.0 ≢ temp) cells
Chain-far h temp p [] fresh e = tt
Chain-far h temp p ((a, x) ∷ cells) fresh (e, (next, look, rest)) =
    (λ same. absurd (cc (look, ap h same, fresh)), Chain-far h temp next cells fresh rest)

last_cell-All :
    (P : ℕ × Item → Type 0) (c : ℕ × Item) (cells : List (ℕ × Item))
    → All P (c ∷ cells)
    → P (last_cell c cells)
last_cell-All P c [] h = h.0
last_cell-All P c (d ∷ cells) h = last_cell-All P d cells h.1

last_cell-append :
    (c : ℕ × Item) (cells : List (ℕ × Item)) (d : ℕ × Item) → last_cell c (cells ++ (d ∷ [])) ≡ d
last_cell-append c [] d = refl
last_cell-append c (e ∷ cells) d = last_cell-append e cells d

All-append :
    (P : ℕ × Item → Type 0) (cells : List (ℕ × Item)) (d : ℕ × Item)
    → All P cells
    → P d
    → All P (cells ++ (d ∷ []))
All-append P [] d h one = (one, tt)
All-append P (c ∷ cells) d h one = (h.0, All-append P cells d h.1 one)

Distinct-append :
    (cells : List (ℕ × Item)) (temp : ℕ) (p_data : Item)
    → Distinct cells
    → All (λ (c : ℕ × Item). c.0 ≢ temp) cells
    → Distinct (cells ++ ((temp, p_data) ∷ []))
Distinct-append [] temp p_data apart far = (tt, tt)
Distinct-append ((a, x) ∷ cells) temp p_data apart far = (
  All-append (λ (c : ℕ × Item). c.0 ≢ a) cells (temp, p_data) apart.0 (λ e. far.0 (sym e)),
  Distinct-append cells temp p_data apart.1 far.1,
)

-- the last node of a chain is allocated
rear_node :
    (h : Heap) (p : Option ℕ) (c : ℕ × Item) (cells : List (ℕ × Item))
    → Chain h p (c ∷ cells)
    → (nd : Node) × (h (last_cell c cells).0 ≡ some nd)
rear_node h p (a, x) [] (e, (next, look, rest)) = (record { data_of = x; next = next }, look)
rear_node h p (a, x) (d ∷ cells) (e, (next, look, rest)) = rear_node h next d cells rest

-- The last node of a chain is made to point to a further node.
Chain-link :
    (h : Heap) (p : Option ℕ) (c : ℕ × Item) (cells : List (ℕ × Item)) (temp : ℕ) (p_data : Item)
    (last : Node)
    → Chain h p (c ∷ cells)
    → Distinct (c ∷ cells)
    → All (λ (d : ℕ × Item). d.0 ≢ temp) (c ∷ cells)
    → h (last_cell c cells).0 ≡ some last
    → h temp ≡ some (record { data_of = p_data; next = none })
    → Chain
        (update h (last_cell c cells).0 (some (record last { next = some temp })))
        p
        ((c ∷ cells) ++ ((temp, p_data) ∷ []))
Chain-link h p (a, x) [] temp p_data last (e, (next, look, rest)) apart far found made =
    let same : last ≡ record { data_of = x; next = next } = cc (found, look) in
    (
      e,
      (
        some temp,
        update_self h a (some (record last { next = some temp }))
            ∙ ap (λ (n : Node). some (record n { next = some temp })) same,
        (refl, (none, update_ne h a _ temp (λ t. far.0 (sym t)) ∙ made, refl)),
      ),
    )
Chain-link h p (a, x) (d ∷ cells) temp p_data last (e, (next, look, rest)) apart far found made = (
  e,
  (
    next,
    update_ne h (last_cell d cells).0 _ a
          (λ t. last_cell-All (λ (c : ℕ × Item). c.0 ≢ a) d cells apart.0 (sym t))
        ∙ look,
    Chain-link h next d cells temp p_data last rest apart.1 far.1 found made,
  ),
)

-- `push_queue` on a valid queue of fewer than 2^31 - 1 items, when `malloc` gives a node that was free,
-- returns 0 and appends the item; the queue stays valid.
pub push_queue-Valid :
    (head rear : Option ℕ) (node_size : ℕ) (cells : List (ℕ × Item)) (h : Heap) (temp : ℕ)
    (p_data : Item)
    → length cells < 2147483647
    → h temp ≡ none
    → Valid (record { head = head; rear = rear; node_size = node_size }) h cells
    → (q : Queue) × (h' : Heap) × (push_queue
          (some (record { head = head; rear = rear; node_size = node_size }))
          p_data
          (some temp)
          h
        ≡ some (pos 0, some q, h'))
      × Valid q h' (cells ++ ((temp, p_data) ∷ []))
unfolding push_queue
push_queue-Valid head rear node_size [] h temp p_data bound fresh (e, is_rear, size, apart) =
    let made : Node = record { data_of = p_data; next = none } in
    (
      record { head = some temp; rear = some temp; node_size = increment node_size },
      update h temp (some made),
      ap
          (λ p.
            push_queue (some (record { head = p; rear = rear; node_size = node_size })) p_data
              (some temp) h)
          e,
      ((refl, (none, update_self h temp (some made), refl)), refl, omega (arith, size), (tt, tt)),
    )
push_queue-Valid head rear node_size (c ∷ cells) h temp p_data bound fresh
      (chain, is_rear, size, apart) =
    let h1 : Heap = update h temp (some (record { data_of = p_data; next = none })) in
    let far = Chain-far h temp head (c ∷ cells) fresh chain in
    let chain1 = Chain-update h temp _ head (c ∷ cells) far chain in
    let (last, found) = rear_node h1 head c cells chain1 in
    let at_rear : ℕ = (last_cell c cells).0 in
    let linked : Queue = record { head = some c.0; rear = rear; node_size = node_size } in
    (
      record { head = some c.0; rear = some temp; node_size = increment node_size },
      update h1 at_rear (some (record last { next = some temp })),
      ap
            (λ p.
              push_queue (some (record { head = p; rear = rear; node_size = node_size })) p_data
                (some temp) h)
            chain.0
          ∙ ap (link_rear linked temp h1) is_rear
          ∙ ap (go linked h1 at_rear temp) found,
      (
        Chain-link h1 (some c.0) c cells temp p_data last (refl, chain1.1) apart far found
            (update_self h temp _),
        ap (λ (d : ℕ × Item). some d.0) (sym (last_cell-append c cells (temp, p_data))),
        omega (arith, size, bound, length-append cells ((temp, p_data) ∷ [])),
        Distinct-append (c ∷ cells) temp p_data apart far,
      ),
    )
  where
    go : Queue → Heap → ℕ → ℕ → Option Node → Option (ℤ × Option Queue × Heap)
    go q h1 r temp none = none
    go q h1 r temp (some last) = some (
      pos 0,
      some (record q { rear = some temp; node_size = increment q.node_size }),
      update h1 r (some (record last { next = some temp })),
    )
