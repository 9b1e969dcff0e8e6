-- ===== src/Tools/LinkList/Delete.antt =====
-- Insertion into a list of clients and deletion from it.
use test.Base.{
  ℕ, zero, suc, ◌<◌, ◌≤◌, ◌≡◌, ◌≢◌, refl, sym, subst, ap, ◌∙◌, Bool, true, false, Option, none,
  some, List, [], ◌∷◌, ◌==◌, inl, inr, if◌then◌else◌, ltb, length, Bool-cases, arith,
}
use test.Tools.LinkList.{
  ClientInfo, ClientNode, Nodes, put, same_string, next_of, link_front, insert_link, unlink,
  at_node, delete_loop, delete_first, delete_node, delete_this_node,
}
use test.Tools.LinkList.Chain.{
  Cell, Chain, Apart, Distinct, IsList, put_ne, put_self, Chain-put, Chain-Apart, without,
  first_hit, before_hit, IsFreed, Apart-without, Distinct-without,
}

-- `insert_link` of an address that fits its array, when `malloc` gives a node that was free, puts a node
-- with that address before the others; what `socket_c` of the new node is, the memory decides.
pub insert_link-IsList :
    (h : Nodes) (llist q : ℕ) (raw : ClientNode) (ipaddr : List ℕ) (cells : List Cell)
    → IsList h llist cells
    → h q ≡ none
    → length ipaddr < 16
    → (h' : Nodes) × (insert_link (some (q, raw)) llist ipaddr h ≡ some h')
      × IsList h' llist ((q, record raw.node_info { ipaddr = ipaddr }) ∷ cells)
unfolding insert_link link_front
insert_link-IsList h llist q raw ipaddr cells ((nd, look, chain), apart, distinct) fresh short =
    let info : ClientInfo = record raw.node_info { ipaddr = ipaddr } in
    let filled : ClientNode = record raw { node_info = info; next = nd.next } in
    let front : ClientNode = record nd { next = some q } in
    let h1 : Nodes = put h q (some filled) in
    let h2 : Nodes = put h1 llist (some front) in
    let q_apart : Apart q cells = Chain-Apart h q nd.next cells fresh chain in
    let other : q ≢ llist = λ same. absurd (cc (look, fresh, ap h same)) in
    let fits : ltb (length ipaddr) 16 ≡ true = ground (arith, short) in
    (
      h2,
      ap (λ o. link_front q raw ipaddr llist o h) look
          ∙ ap (λ (b : Bool). if b then some h2 else none) fits,
      (
        (
          front,
          put_self h1 llist (some front),
          (
            refl,
            (
              filled,
              put_ne h1 llist (some front) q other ∙ put_self h q (some filled),
              refl,
              Chain-put h1 llist (some front) nd.next cells apart
                  (Chain-put h q (some filled) nd.next cells q_apart chain),
            ),
          ),
        ),
        (other, apart),
        (q_apart, distinct),
      ),
    )

-- What a deletion behind the node `p`, which was `before`, made of the heap.
abbrev pub Deleted :
    (ℕ → ClientInfo → Bool) → Nodes → ℕ → ClientNode → List Cell → Option (ℕ × Nodes) → Type 0
Deleted hit h p before cells none = ⊥
Deleted hit h p before cells (some (p', h')) =
    (p' ≡ before_hit hit p cells)
    × ((next : Option ℕ) × (h' p ≡ some (record before { next = next }))
        × Chain h' next (without hit cells))
    × IsFreed h' (first_hit hit cells)
    × ((b : ℕ) → b ≢ p → Apart b cells → h' b ≡ h b)

module _ (hit : ℕ → ClientInfo → Bool) where
  -- The node that is hit.
  unlink-Deleted :
      (h : Nodes) (p q : ℕ) (before nd : ClientNode) (cells : List Cell)
      → h p ≡ some before
      → q ≢ p
      → Apart p cells
      → Apart q cells
      → Chain h nd.next cells
      → hit q nd.node_info ≡ true
      → Deleted hit h p before ((q, nd.node_info) ∷ cells) (unlink p q nd (h p) h)
  unfolding unlink
  unlink-Deleted h p q before nd cells at_p other far_p far_q chain hits =
      let linked : ClientNode = record before { next = nd.next } in
      let h1 : Nodes = put h p (some linked) in
      let h2 : Nodes = put h1 q none in
      subst (λ o. Deleted hit h p before ((q, nd.node_info) ∷ cells) (unlink p q nd o h)) (sym at_p)
        (rw hits (
          refl,
          (
            nd.next,
            put_ne h1 q none p (λ e. other (sym e)) ∙ put_self h p (some linked),
            Chain-put h1 q none nd.next cells far_q
                (Chain-put h p (some linked) nd.next cells far_p chain),
          ),
          put_self h1 q none,
          λ b not_p far. put_ne h1 q none b (λ e. far.0 (sym e)) ∙ put_ne h p (some linked) b not_p,
        ))

  -- The node that is not hit stays before what a deletion behind it leaves.
  miss-Deleted :
      (h : Nodes) (p q : ℕ) (before nd : ClientNode) (cells : List Cell) (r : Option (ℕ × Nodes))
      → h p ≡ some before
      → before.next ≡ some q
      → h q ≡ some nd
      → q ≢ p
      → Apart p cells
      → hit q nd.node_info ≡ false
      → Deleted hit h q nd cells r
      → Deleted hit h p before ((q, nd.node_info) ∷ cells) r
  miss-Deleted h p q before nd cells none at_p to_q at_q other far misses d = d
  miss-Deleted h p q before nd cells (some (p', h')) at_p to_q at_q other far misses
        (last, (next, at_q', rest), freed, frame) =
      rw misses (
        last,
        (
          before.next,
          frame p (λ e. other (sym e)) far ∙ at_p,
          (to_q, (record nd { next = next }, at_q', refl, rest)),
        ),
        freed,
        λ b not_p far_b. frame b (λ e. far_b.0 (sym e)) far_b.1,
      )

  -- the rounds behind a node that is not hit
  rest-Deleted :
      (again : ℕ → ℕ → Option (ℕ × Nodes)) (h : Nodes) (q : ℕ) (nd : ClientNode) (cells : List Cell)
      → h q ≡ some nd
      → Chain h nd.next cells
      → ((a : ℕ) (x : ClientInfo) (rest : List Cell)
          → cells ≡ (a, x) ∷ rest
          → Deleted hit h q nd cells (again q a))
      → Deleted hit h q nd cells (elim nd.next [ none ↦ some (q, h) | some a ↦ again q a ])
  rest-Deleted again h q nd [] at_q chain next =
      subst
        (λ (o : Option ℕ).
          Deleted hit h q nd [] (elim o [ none ↦ some (q, h) | some a ↦ again q a ]))
        (sym chain) (refl, (nd.next, at_q, chain), tt, λ b not_q far. refl)
  rest-Deleted again h q nd ((a, x) ∷ cells) at_q chain next =
      subst
        (λ (o : Option ℕ).
          Deleted hit h q nd ((a, x) ∷ cells) (elim o [ none ↦ some (q, h) | some a ↦ again q a ]))
        (sym chain.0) (next a x cells refl)

  delete_loop-Deleted :
      (fuel : ℕ) (h : Nodes) (p q : ℕ) (before : ClientNode) (x : ClientInfo) (cells : List Cell)
      → h p ≡ some before
      → Chain h before.next ((q, x) ∷ cells)
      → Apart p ((q, x) ∷ cells)
      → Distinct ((q, x) ∷ cells)
      → length cells < fuel
      → Deleted hit h p before ((q, x) ∷ cells) (delete_loop fuel hit h p q)
  unfolding delete_loop at_node
  delete_loop-Deleted zero h p q before x cells at_p chain far apart enough = absurd (omega arith)
  delete_loop-Deleted (suc fuel) h p q before x cells at_p (to_q, (nd, at_q, info, chain)) far apart
        enough =
      let again = delete_loop fuel hit h in
      let all : List Cell = (q, nd.node_info) ∷ cells in
      let rest : Option (ℕ × Nodes) = elim nd.next [ none ↦ some (q, h) | some a ↦ again q a ] in
      let go : Deleted hit h p before all
          (if hit q nd.node_info then unlink p q nd (h p) h else rest) =
        elim (Bool-cases (hit q nd.node_info)) [
          | inl e ↦
              subst
                (λ (b : Bool).
                  Deleted hit h p before all (if b then unlink p q nd (h p) h else rest))
                (sym e) (unlink-Deleted h p q before nd cells at_p far.0 far.1 apart.0 chain e)
          | inr e ↦
              subst
                (λ (b : Bool).
                  Deleted hit h p before all (if b then unlink p q nd (h p) h else rest))
                (sym e)
                (miss-Deleted h p q before nd cells rest at_p to_q at_q far.0 far.1 e (
                  rest-Deleted again h q nd cells at_q chain (λ a y tail same.
                    subst (λ (cs : List Cell). Deleted hit h q nd cs (again q a)) (sym same)
                      (delete_loop-Deleted fuel h q a nd y tail at_q
                        (subst (Chain h nd.next) same chain) (subst (Apart q) same apart.0)
                        (subst Distinct same apart.1)
                        (omega (arith, enough, ap (length {A = Cell}) same))))))
        ] in
      subst
        (λ (i : ClientInfo).
          Deleted hit h p before ((q, i) ∷ cells) (at_node again hit p q (h q) h))
        info (subst (λ o. Deleted hit h p before all (at_node again hit p q o h)) (sym at_q) go)

  delete_first-Deleted :
      (fuel : ℕ) (h : Nodes) (llist : ℕ) (nd : ClientNode) (cells : List Cell)
      → h llist ≡ some nd
      → Chain h nd.next cells
      → Apart llist cells
      → Distinct cells
      → length cells ≤ fuel
      → Deleted hit h llist nd cells (delete_first fuel hit h llist (some nd.next))
  unfolding delete_first
  delete_first-Deleted fuel h llist nd [] at_l chain far apart enough =
      subst (λ o. Deleted hit h llist nd [] (delete_first fuel hit h llist (some o))) (sym chain)
        (refl, (nd.next, at_l, chain), tt, λ b not_l away. refl)
  delete_first-Deleted fuel h llist nd ((q, x) ∷ cells) at_l chain far apart enough =
      subst (λ o. Deleted hit h llist nd ((q, x) ∷ cells) (delete_first fuel hit h llist (some o)))
        (sym chain.0)
        (delete_loop-Deleted fuel h llist q nd x cells at_l chain far apart (omega (arith, enough)))

  -- `delete_first` on a list: one result, which is the list without the first client that is hit.
  delete_first-IsList :
      (fuel : ℕ) (h : Nodes) (llist : ℕ) (cells : List Cell)
      → IsList h llist cells
      → length cells ≤ fuel
      → (h' : Nodes) × (delete_first fuel hit h llist (next_of (h llist))
          ≡ some (before_hit hit llist cells, h'))
        × IsList h' llist (without hit cells)
        × IsFreed h' (first_hit hit cells)
  unfolding next_of
  delete_first-IsList fuel h llist cells ((nd, at_l, chain), far, apart) enough = found _ refl (
      subst (λ o. Deleted hit h llist nd cells (delete_first fuel hit h llist (next_of o)))
        (sym at_l) (delete_first-Deleted fuel h llist nd cells at_l chain far apart enough))
    where
      found :
          (r : Option (ℕ × Nodes))
          → delete_first fuel hit h llist (next_of (h llist)) ≡ r
          → Deleted hit h llist nd cells r
          → (h' : Nodes) × (delete_first fuel hit h llist (next_of (h llist))
              ≡ some (before_hit hit llist cells, h'))
            × IsList h' llist (without hit cells)
            × IsFreed h' (first_hit hit cells)
      found none e d = absurd d
      found (some (p', h')) e (last, (next, at_l', rest), freed, frame) = (
        h',
        e ∙ ap (λ (t : ℕ). some (t, h')) last,
        (
          (record nd { next = next }, at_l', rest),
          Apart-without hit llist cells far,
          Distinct-without hit cells apart,
        ),
        freed,
      )

-- the test of `delete_node`
abbrev pub has_address : List ℕ → ℕ → ClientInfo → Bool
has_address ipaddr q info = same_string info.ipaddr ipaddr

-- `delete_node` on a list ends and returns the list, which has lost the first client with the address and
-- no other, and that client's node is free; a list without such a client keeps its clients.
pub delete_node-IsList :
    (fuel : ℕ) (h : Nodes) (llist : ℕ) (ipaddr : List ℕ) (cells : List Cell)
    → IsList h llist cells
    → length cells ≤ fuel
    → (h' : Nodes) × (delete_node fuel llist ipaddr h ≡ some (llist, h'))
      × IsList h' llist (without (has_address ipaddr) cells)
      × IsFreed h' (first_hit (has_address ipaddr) cells)
unfolding delete_node
delete_node-IsList fuel h llist ipaddr cells list enough =
    let (h', gives, after, freed) =
      delete_first-IsList (has_address ipaddr) fuel h llist cells list enough in
    (
      h',
      ap
          (λ (r : Option (ℕ × Nodes)). elim r as (λ _. Option (ℕ × Nodes)) [
            | none ↦ none
            | some (p, h'') ↦ some (llist, h'')
          ])
          gives,
      after,
      freed,
    )

-- `delete_this_node` on a list ends and returns the node before the given one (the last node when the list
-- does not have it); the list has lost that node and no other, and it is free.
pub delete_this_node-IsList :
    (fuel : ℕ) (h : Nodes) (llist this_pnode : ℕ) (cells : List Cell)
    → IsList h llist cells
    → length cells ≤ fuel
    → (h' : Nodes) × (delete_this_node fuel llist this_pnode h
        ≡ some (before_hit (λ q _. q == this_pnode) llist cells, h'))
      × IsList h' llist (without (λ q _. q == this_pnode) cells)
      × IsFreed h' (first_hit (λ q _. q == this_pnode) cells)
unfolding delete_this_node
delete_this_node-IsList fuel h llist this_pnode cells list enough =
    delete_first-IsList (λ q _. q == this_pnode) fuel h llist cells list enough
