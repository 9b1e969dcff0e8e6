-- ===== src/Tools/LinkList/Search.antt =====
-- What reads a list of clients, and the insertion that keeps addresses apart.
use test.Base.{
  ℕ, zero, suc, ◌+◌, ◌<◌, ◌≤◌, ◌≡◌, refl, sym, subst, ap, ◌∙◌, Option, none, some, List, [], ◌∷◌,
  inl, inr, length, Bool-cases, arith,
}
use test.Tools.LinkList.{
  ClientInfo, ClientNode, Nodes, same_string, next_of, insert_link, found_at, search_loop,
  search_from, search_node, num_from, num_loop, num_node, inserted, insert_nodulp_node,
}
use test.Tools.LinkList.Chain.{Cell, Chain, IsList, first_hit}
use test.Tools.LinkList.Delete.{has_address, insert_link-IsList}

module _ (ipaddr : List ℕ) (h : Nodes) where
  -- what the search finds behind a node
  search_rest :
      (again : ℕ → Option (Option ℕ)) (p : Option ℕ) (cells : List Cell)
      → Chain h p cells
      → ((a : ℕ) (x : ClientInfo) (tail : List Cell)
          → cells ≡ (a, x) ∷ tail
          → again a ≡ some (first_hit (has_address ipaddr) cells))
      → (elim p as (λ _. Option (Option ℕ)) [ none ↦ some none | some a ↦ again a ])
        ≡ some (first_hit (has_address ipaddr) cells)
  search_rest again p [] chain next =
      ap
        (λ (o : Option ℕ). elim o as (λ _. Option (Option ℕ)) [
          | none ↦ some none
          | some a ↦ again a
        ])
        chain
  search_rest again p ((a, x) ∷ cells) chain next =
      ap
        (λ (o : Option ℕ). elim o as (λ _. Option (Option ℕ)) [
          | none ↦ some none
          | some a ↦ again a
        ])
        chain.0
      ∙ next a x cells refl

  search_loop-first :
      (fuel q : ℕ) (x : ClientInfo) (cells : List Cell) (p : Option ℕ)
      → Chain h p ((q, x) ∷ cells)
      → length cells < fuel
      → search_loop fuel ipaddr h q ≡ some (first_hit (has_address ipaddr) ((q, x) ∷ cells))
  unfolding search_loop found_at
  search_loop-first zero q x cells p chain enough = absurd (omega arith)
  search_loop-first (suc fuel) q x cells p (e, (nd, at_q, info, chain)) enough =
      let next = search_rest (search_loop fuel ipaddr h) nd.next cells chain (λ a y tail same.
        search_loop-first fuel a y tail nd.next (subst (Chain h nd.next) same chain)
          (omega (arith, enough, ap (length {A = Cell}) same))
        ∙ ap (λ cs. some (first_hit (has_address ipaddr) cs)) (sym same)) in
      subst
        (λ (i : ClientInfo).
          search_loop (suc fuel) ipaddr h q
          ≡ some (first_hit (has_address ipaddr) ((q, i) ∷ cells)))
        info
        (ap (found_at (search_loop fuel ipaddr h) ipaddr q) at_q
          ∙ elim (Bool-cases (same_string nd.node_info.ipaddr ipaddr)) [
            | inl e' ↦ rw e' refl
            | inr e' ↦ rw e' next
          ])

  search_from-first :
      (fuel : ℕ) (p : Option ℕ) (cells : List Cell)
      → Chain h p cells
      → length cells ≤ fuel
      → search_from fuel ipaddr h (some p) ≡ some (first_hit (has_address ipaddr) cells)
  unfolding search_from
  search_from-first fuel p [] chain enough = ap (λ o. search_from fuel ipaddr h (some o)) chain
  search_from-first fuel p ((a, x) ∷ cells) chain enough =
      ap (λ o. search_from fuel ipaddr h (some o)) chain.0
      ∙ search_loop-first fuel a x cells p chain (omega (arith, enough))

-- `search_node` on a list ends and returns the first node with the address, or NULL when there is none.
pub search_node-first :
    (fuel : ℕ) (h : Nodes) (llist : ℕ) (ipaddr : List ℕ) (cells : List Cell)
    → IsList h llist cells
    → length cells ≤ fuel
    → search_node fuel llist ipaddr h ≡ some (first_hit (has_address ipaddr) cells)
unfolding search_node next_of
search_node-first fuel h llist ipaddr cells ((nd, at_l, chain), far, apart) enough =
    ap (λ o. search_from fuel ipaddr h (next_of o)) at_l
    ∙ search_from-first ipaddr h fuel nd.next cells chain enough

num_loop-length :
    (fuel : ℕ) (h : Nodes) (p : ℕ) (nd : ClientNode) (cells : List Cell) (n : ℕ)
    → h p ≡ some nd
    → Chain h nd.next cells
    → length cells < fuel
    → num_loop fuel h p n ≡ some (n + length cells)
unfolding num_loop num_from next_of
num_loop-length zero h p nd cells n at_p chain enough = absurd (omega arith)
num_loop-length (suc fuel) h p nd [] n at_p chain enough =
    ap (λ o. num_from (λ q. num_loop fuel h q (n + 1)) n (next_of o)) at_p
    ∙ ap (λ o. num_from (λ q. num_loop fuel h q (n + 1)) n (some o)) chain
    ∙ ap some (omega arith)
num_loop-length (suc fuel) h p nd ((a, x) ∷ cells) n at_p (e, (nd', at_a, info, chain)) enough =
    let sum : (n + 1) + length cells ≡ n + suc (length cells) = omega arith in
    ap (λ o. num_from (λ q. num_loop fuel h q (n + 1)) n (next_of o)) at_p
    ∙ ap (λ o. num_from (λ q. num_loop fuel h q (n + 1)) n (some o)) e
    ∙ num_loop-length fuel h a nd' cells (n + 1) at_a chain (omega (arith, enough))
    ∙ ap some sum

-- `num_node` on a list ends and returns the number of its clients.
pub num_node-length :
    (fuel : ℕ) (h : Nodes) (llist : ℕ) (cells : List Cell)
    → IsList h llist cells
    → length cells < fuel
    → num_node fuel h llist ≡ some (length cells)
unfolding num_node
num_node-length fuel h llist cells ((nd, at_l, chain), far, apart) enough =
    let sum : 0 + length cells ≡ length cells = omega arith in
    num_loop-length fuel h llist nd cells 0 at_l chain enough ∙ ap some sum

-- No two clients have the same address.
abbrev pub NoDuplicates : List Cell → Type 0
NoDuplicates [] = Unit
NoDuplicates ((a, x) ∷ cells) = (first_hit (has_address x.ipaddr) cells ≡ none) × NoDuplicates cells

-- what `insert_nodulp_node` makes of a list: nothing, or a new first client
abbrev pub Inserted :
    ℕ → ClientNode → ℕ → List ℕ → List Cell → Nodes → Option ℕ → Option (ℕ × Nodes) → Type 0
Inserted q raw llist ipaddr cells h found none = ⊥
Inserted q raw llist ipaddr cells h none (some (ret, h')) =
    (ret ≡ 1)
    × IsList h' llist ((q, record raw.node_info { ipaddr = ipaddr }) ∷ cells)
    × NoDuplicates ((q, record raw.node_info { ipaddr = ipaddr }) ∷ cells)
Inserted q raw llist ipaddr cells h (some a) (some (ret, h')) = (ret ≡ 0) × (h' ≡ h)

-- `insert_nodulp_node` of an address that fits its array, on a list without two equal addresses, when
-- `malloc` gives a free node: it ends; an address that is there is not inserted, and the heap stays as it
-- was; another becomes the first client, and there are still no two equal addresses.
pub insert_nodulp_node-NoDuplicates :
    (fuel : ℕ) (h : Nodes) (llist q : ℕ) (raw : ClientNode) (ipaddr : List ℕ) (cells : List Cell)
    → IsList h llist cells
    → NoDuplicates cells
    → h q ≡ none
    → length ipaddr < 16
    → length cells ≤ fuel
    → Inserted q raw llist ipaddr cells h
        (first_hit (has_address ipaddr) cells)
        (insert_nodulp_node fuel (some (q, raw)) llist ipaddr h)
unfolding insert_nodulp_node inserted
insert_nodulp_node-NoDuplicates fuel h llist q raw ipaddr cells list apart fresh short enough =
    let after = λ (o : Option (Option ℕ)). elim o as (λ _. Option (ℕ × Nodes)) [
      | none ↦ none
      | some none ↦ inserted (insert_link (some (q, raw)) llist ipaddr h)
      | some (some a) ↦ some (0, h)
    ] in
    subst
      (λ o. Inserted q raw llist ipaddr cells h (first_hit (has_address ipaddr) cells) (after o))
      (sym (search_node-first fuel h llist ipaddr cells list enough))
      (by_search (first_hit (has_address ipaddr) cells) refl)
  where
    by_search :
        (o : Option ℕ)
        → first_hit (has_address ipaddr) cells ≡ o
        → Inserted q raw llist ipaddr cells h o (elim (some o) as (λ _. Option (ℕ × Nodes)) [
          | none ↦ none
          | some none ↦ inserted (insert_link (some (q, raw)) llist ipaddr h)
          | some (some a) ↦ some (0, h)
        ])
    by_search (some a) e = (refl, refl)
    by_search none e =
        let (h', gives, after) = insert_link-IsList h llist q raw ipaddr cells list fresh short in
        subst (λ r. Inserted q raw llist ipaddr cells h none (inserted r)) (sym gives)
          (refl, after, (e, apart))
