-- ===== src/Tools/LinkList/Free.antt =====
-- What `free_linklist` leaves of a list of clients.
use test.Base.{
  ℕ, zero, suc, ◌<◌, ◌≡◌, refl, sym, subst, ap, ◌∙◌, Option, none, some, List, [], ◌∷◌, length,
  arith,
}
use test.Tools.LinkList.{
  ClientInfo, ClientNode, Nodes, put, next_of, free_at, while_more, free_round, free_loop,
  free_from, free_first, free_linklist,
}
use test.Tools.LinkList.Chain.{Cell, Chain, Apart, Distinct, IsList, put_self, Chain-put}

abbrev pub last_client : Cell → List Cell → Cell
last_client c [] = c
last_client c (d ∷ cells) = last_client d cells

-- The call returned 1 and left this one client.
abbrev pub LeavesOne : ℕ → Cell → Option (ℕ × Nodes) → Type 0
LeavesOne llist c none = ⊥
LeavesOne llist c (some (ret, h')) = (ret ≡ 1) × IsList h' llist (c ∷ [])

-- One round frees the first client.
freed-IsList :
    (h : Nodes) (llist a : ℕ) (x : ClientInfo) (nd : ClientNode) (b : ℕ) (y : ClientInfo)
    (rest : List Cell)
    → Chain h (some b) ((b, y) ∷ rest)
    → Apart llist ((a, x) ∷ (b, y) ∷ rest)
    → Distinct ((a, x) ∷ (b, y) ∷ rest)
    → IsList (put (put h a none) llist (some (record nd { next = some b }))) llist ((b, y) ∷ rest)
freed-IsList h llist a x nd b y rest chain far apart =
    let front : ClientNode = record nd { next = some b } in
    (
      (
        front,
        put_self (put h a none) llist (some front),
        Chain-put (put h a none) llist (some front) (some b) ((b, y) ∷ rest) far.1
            (Chain-put h a none (some b) ((b, y) ∷ rest) apart.0 chain),
      ),
      far.1,
      apart.1,
    )

-- the test of the loop, and the rounds that are left
while_more-LeavesOne :
    (again : Option ℕ → Nodes → Option (ℕ × Nodes)) (h : Nodes) (llist b : ℕ) (y : ClientInfo)
    (rest : List Cell)
    → IsList h llist ((b, y) ∷ rest)
    → ((c : ℕ) (z : ClientInfo) (tail : List Cell)
        → rest ≡ (c, z) ∷ tail
        → LeavesOne llist (last_client (b, y) rest) (again (some c) h))
    → LeavesOne llist (last_client (b, y) rest) (while_more again (next_of (h b)) h)
unfolding while_more next_of
while_more-LeavesOne again h llist b y [] list next =
    let (nd, at_l, (e, (first, at_b, info, end))) = list.0 in
    subst (λ o. LeavesOne llist (b, y) (while_more again (next_of o) h)) (sym at_b)
      (subst (λ o. LeavesOne llist (b, y) (while_more again (some o) h)) (sym end) (refl, list))
while_more-LeavesOne again h llist b y ((c, z) ∷ tail) list next =
    let (nd, at_l, (e, (first, at_b, info, end))) = list.0 in
    subst (λ o. LeavesOne llist (last_client (c, z) tail) (while_more again (next_of o) h))
      (sym at_b)
      (subst (λ o. LeavesOne llist (last_client (c, z) tail) (while_more again (some o) h))
        (sym end.0) (next c z tail refl))

free_loop-LeavesOne :
    (fuel : ℕ) (h : Nodes) (llist a b : ℕ) (x y : ClientInfo) (rest : List Cell)
    → IsList h llist ((a, x) ∷ (b, y) ∷ rest)
    → length rest < fuel
    → LeavesOne llist (last_client (b, y) rest) (free_loop fuel llist (some b) h)
unfolding free_loop free_round
free_loop-LeavesOne zero h llist a b x y rest list enough = absurd (omega arith)
free_loop-LeavesOne (suc fuel) h llist a b x y rest
      ((nd, at_l, (e, (first, at_a, info, chain))), far, apart) enough =
    let h' : Nodes = put (put h a none) llist (some (record nd { next = some b })) in
    let after = freed-IsList h llist a x nd b y rest (refl, chain.1) far apart in
    let more : LeavesOne llist (last_client (b, y) rest)
        (while_more (free_loop fuel llist) (next_of (h' b)) h') =
      while_more-LeavesOne (free_loop fuel llist) h' llist b y rest after (λ c z tail same.
        subst (λ cs. LeavesOne llist (last_client (b, y) cs) (free_loop fuel llist (some c) h'))
          (sym same)
          (free_loop-LeavesOne fuel h' llist b c y z tail
            (subst (λ cs. IsList h' llist ((b, y) ∷ cs)) same after)
            (omega (arith, enough, ap (length {A = Cell}) same)))) in
    subst
      (λ o.
        LeavesOne llist (last_client (b, y) rest)
          (free_round (free_loop fuel llist) llist o (some b) h))
      (sym at_l)
      (subst
        (λ o. LeavesOne llist (last_client (b, y) rest) (
          while_more (free_loop fuel llist)
            (next_of (put (put_next o) llist (some (record nd { next = some b })) b))
            (put (put_next o) llist (some (record nd { next = some b })))))
        (sym e) more)
  where
    put_next : Option ℕ → Nodes
    put_next o = free_at o h

-- the way to the second node
free_linklist-second :
    (fuel : ℕ) (h : Nodes) (llist a : ℕ) (nd first : ClientNode)
    → h llist ≡ some nd
    → nd.next ≡ some a
    → h a ≡ some first
    → free_linklist fuel llist h ≡ free_loop fuel llist first.next h
unfolding free_linklist free_first free_from next_of
free_linklist-second fuel h llist a nd first at_l e at_a =
    ap (λ o. free_first fuel llist (next_of o) h) at_l
    ∙ ap (λ o. free_first fuel llist (some o) h) e
    ∙ ap (λ o. free_from fuel llist (next_of o) h) at_a

-- `free_linklist` of a list of two clients or more returns 1, and the last client is still in the list: its
-- node is not freed.
pub free_linklist-LeavesOne :
    (fuel : ℕ) (h : Nodes) (llist : ℕ) (c d : Cell) (rest : List Cell)
    → IsList h llist (c ∷ d ∷ rest)
    → length rest < fuel
    → LeavesOne llist (last_client d rest) (free_linklist fuel llist h)
free_linklist-LeavesOne fuel h llist (a, x) (b, y) rest list enough =
    let (nd, at_l, (e, (first, at_a, info, chain))) = list.0 in
    subst (LeavesOne llist (last_client (b, y) rest))
      (sym (
        free_linklist-second fuel h llist a nd first at_l e at_a
        ∙ ap (λ o. free_loop fuel llist o h) chain.0))
      (free_loop-LeavesOne fuel h llist a b x y rest list enough)

free_loop-null :
    (fuel llist : ℕ) (h : Nodes) (nd : ClientNode)
    → h llist ≡ some nd
    → free_loop fuel llist none h ≡ none
unfolding free_loop free_round
free_loop-null zero llist h nd at_l = refl
free_loop-null (suc fuel) llist h nd at_l =
    ap (λ o. free_round (free_loop fuel llist) llist o none h) at_l

-- `free_linklist` of a list of one client reads through NULL: it has no result, whatever the fuel.
pub free_linklist-single :
    (fuel : ℕ) (h : Nodes) (llist : ℕ) (c : Cell)
    → IsList h llist (c ∷ [])
    → free_linklist fuel llist h ≡ none
free_linklist-single fuel h llist (a, x) list =
    let (nd, at_l, (e, (first, at_a, info, end))) = list.0 in
    free_linklist-second fuel h llist a nd first at_l e at_a
    ∙ ap (λ o. free_loop fuel llist o h) end
    ∙ free_loop-null fuel llist h nd at_l
