-- ===== src/Tools/LinkList.antt =====
-- The list of clients of sample/llist.c, over a heap of nodes: a node without a client, and behind it one
-- node for each client. A list is the address of its first node, and not NULL. The loops over the nodes are
-- on fuel. `none` is undefined behaviour (an access through NULL or to a node that is not there, a string
-- that does not fit its array), or the end of the fuel. A string is the list of its bytes without the 0
-- at the end.
pub mod Chain
pub mod Delete
pub mod Search
pub mod Free
pub mod Add
use test.Base.{
  ℕ, zero, suc, ◌+◌, Bool, true, false, ◌&&◌, Option, none, some, List, [], ◌∷◌, ◌==◌, ltb,
  if◌then◌else◌, length,
}
use test.Base.Int.{ℤ}

-- `client_info` and `struct node`
pub record ClientInfo : Type 0 where
  pub ipaddr : List ℕ
  pub socket_c : ℤ

pub record ClientNode : Type 0 where
  pub node_info : ClientInfo
  pub send_fail_n : ℕ
  pub next : Option ℕ

-- the nodes that are allocated
abbrev pub Nodes : Type 0
Nodes = ℕ → Option ClientNode

abbrev pub put : Nodes → ℕ → Option ClientNode → Nodes
put h a v b = if b == a then v else h b

-- `!strcmp(a, b)`
abbrev pub same_string : List ℕ → List ℕ → Bool
same_string [] [] = true
same_string [] (y ∷ ys) = false
same_string (x ∷ xs) [] = false
same_string (x ∷ xs) (y ∷ ys) = (x == y) && same_string xs ys

-- What `malloc` returns: an address, with what the memory there holds.
abbrev pub Malloc : Type 0
Malloc = Option (ℕ × ClientNode)

unfoldable pub create_null_list_link : Malloc → Nodes → Option ℕ × Nodes
create_null_list_link none h = (none, h)
create_null_list_link (some (a, raw)) h = (some a, put h a (some (record raw { next = none })))

unfoldable pub next_of : Option ClientNode → Option (Option ℕ)
next_of none = none
next_of (some nd) = some nd.next

-- `llist->next == NULL`
abbrev pub is_null : Option (Option ℕ) → Option Bool
is_null none = none
is_null (some none) = some true
is_null (some (some a)) = some false

unfoldable pub is_nulllist_link : Nodes → ℕ → Option Bool
is_nulllist_link h llist = is_null (next_of (h llist))

-- the new node `q` between the first node and the others; `strcpy` sets only its address
unfoldable pub link_front : ℕ → ClientNode → List ℕ → ℕ → Option ClientNode → Nodes → Option Nodes
link_front q raw ipaddr llist none h = none
link_front q raw ipaddr llist (some nd) h =
    let filled : ClientNode = record raw {
      node_info = record raw.node_info { ipaddr = ipaddr };
      next = nd.next;
    } in
    if ltb (length ipaddr) 16
    then some (put (put h q (some filled)) llist (some (record nd { next = some q })))
    else none

unfoldable pub insert_link : Malloc → ℕ → List ℕ → Nodes → Option Nodes
insert_link none llist ipaddr h = some h
insert_link (some (q, raw)) llist ipaddr h = link_front q raw ipaddr llist (h llist) h

-- `p->next = q->next; free(q)`
unfoldable pub unlink : ℕ → ℕ → ClientNode → Option ClientNode → Nodes → Option (ℕ × Nodes)
unlink p q nd none h = none
unlink p q nd (some before) h =
    some (p, put (put h p (some (record before { next = nd.next }))) q none)

-- what the loop does at the node `q` behind `p`; `again` is the next round
unfoldable pub at_node :
    (ℕ → ℕ → Option (ℕ × Nodes))
    → (ℕ → ClientInfo → Bool)
    → ℕ
    → ℕ
    → Option ClientNode
    → Nodes
    → Option (ℕ × Nodes)
at_node again hit p q none h = none
at_node again hit p q (some nd) h =
    if hit q nd.node_info
    then unlink p q nd (h p) h
    else elim nd.next [ none ↦ some (q, h) | some q' ↦ again q q' ]

-- The loop of the two functions that delete, with the test of one of them: it gives `p` and the heap.
unfoldable pub delete_loop : ℕ → (ℕ → ClientInfo → Bool) → Nodes → ℕ → ℕ → Option (ℕ × Nodes)
unfolding at_node
delete_loop zero hit h p q = none
delete_loop (suc fuel) hit h p q = at_node (delete_loop fuel hit h) hit p q (h q) h

unfoldable pub delete_first :
    ℕ → (ℕ → ClientInfo → Bool) → Nodes → ℕ → Option (Option ℕ) → Option (ℕ × Nodes)
delete_first fuel hit h llist none = none
delete_first fuel hit h llist (some none) = some (llist, h)
delete_first fuel hit h llist (some (some q)) = delete_loop fuel hit h llist q

-- `delete_node` returns the list, and `delete_this_node` the node before the deleted one.
unfoldable pub delete_node : ℕ → ℕ → List ℕ → Nodes → Option (ℕ × Nodes)
delete_node fuel llist ipaddr h =
    elim (delete_first fuel (λ q info. same_string info.ipaddr ipaddr) h llist
      (next_of (h llist))) [ none ↦ none | some (p, h') ↦ some (llist, h') ]

unfoldable pub delete_this_node : ℕ → ℕ → ℕ → Nodes → Option (ℕ × Nodes)
delete_this_node fuel llist this_pnode h =
    delete_first fuel (λ q info. q == this_pnode) h llist (next_of (h llist))

-- the node `q` in the search, and the loop of the search
unfoldable pub found_at :
    (ℕ → Option (Option ℕ)) → List ℕ → ℕ → Option ClientNode → Option (Option ℕ)
found_at again ipaddr q none = none
found_at again ipaddr q (some nd) =
    if same_string nd.node_info.ipaddr ipaddr
    then some (some q)
    else elim nd.next [ none ↦ some none | some q' ↦ again q' ]

unfoldable pub search_loop : ℕ → List ℕ → Nodes → ℕ → Option (Option ℕ)
unfolding found_at
search_loop zero ipaddr h q = none
search_loop (suc fuel) ipaddr h q = found_at (search_loop fuel ipaddr h) ipaddr q (h q)

unfoldable pub search_from : ℕ → List ℕ → Nodes → Option (Option ℕ) → Option (Option ℕ)
search_from fuel ipaddr h none = none
search_from fuel ipaddr h (some none) = some none
search_from fuel ipaddr h (some (some q)) = search_loop fuel ipaddr h q

unfoldable pub search_node : ℕ → ℕ → List ℕ → Nodes → Option (Option ℕ)
search_node fuel llist ipaddr h = search_from fuel ipaddr h (next_of (h llist))

-- `while (llist->next)`, with the count so far
unfoldable pub num_from : (ℕ → Option ℕ) → ℕ → Option (Option ℕ) → Option ℕ
num_from again n none = none
num_from again n (some none) = some n
num_from again n (some (some q)) = again q

unfoldable pub num_loop : ℕ → Nodes → ℕ → ℕ → Option ℕ
unfolding num_from
num_loop zero h llist n = none
num_loop (suc fuel) h llist n = num_from (λ q. num_loop fuel h q (n + 1)) n (next_of (h llist))

unfoldable pub num_node : ℕ → Nodes → ℕ → Option ℕ
num_node fuel h llist = num_loop fuel h llist 0

-- `insert_nodulp_node` returns 1 also when `malloc` fails.
unfoldable pub inserted : Option Nodes → Option (ℕ × Nodes)
inserted none = none
inserted (some h) = some (1, h)

unfoldable pub insert_nodulp_node : ℕ → Malloc → ℕ → List ℕ → Nodes → Option (ℕ × Nodes)
unfolding inserted
insert_nodulp_node fuel malloc llist ipaddr h = elim (search_node fuel llist ipaddr h) [
  | none ↦ none
  | some none ↦ inserted (insert_link malloc llist ipaddr h)
  | some (some q) ↦ some (0, h)
]

-- `free`, which takes NULL
abbrev pub free_at : Option ℕ → Nodes → Nodes
free_at none h = h
free_at (some a) h = put h a none

-- `while (q != NULL)`, behind `q = q->next`
unfoldable pub while_more :
    (Option ℕ → Nodes → Option (ℕ × Nodes)) → Option (Option ℕ) → Nodes → Option (ℕ × Nodes)
while_more again none h = none
while_more again (some none) h = some (1, h)
while_more again (some (some q)) h = again (some q) h

-- `free(llist->next); llist->next = q; q = q->next`; with `q` NULL the last reads through it.
unfoldable pub free_round :
    (Option ℕ → Nodes → Option (ℕ × Nodes))
    → ℕ
    → Option ClientNode
    → Option ℕ
    → Nodes
    → Option (ℕ × Nodes)
unfolding while_more
free_round again llist none q h = none
free_round again llist (some nd) none h = none
free_round again llist (some nd) (some q) h =
    let h' : Nodes = put (free_at nd.next h) llist (some (record nd { next = some q })) in
    while_more again (next_of (h' q)) h'

unfoldable pub free_loop : ℕ → ℕ → Option ℕ → Nodes → Option (ℕ × Nodes)
unfolding free_round
free_loop zero llist q h = none
free_loop (suc fuel) llist q h = free_round (free_loop fuel llist) llist (h llist) q h

-- from `llist->next->next` on
unfoldable pub free_from : ℕ → ℕ → Option (Option ℕ) → Nodes → Option (ℕ × Nodes)
free_from fuel llist none h = none
free_from fuel llist (some q) h = free_loop fuel llist q h

unfoldable pub free_first : ℕ → ℕ → Option (Option ℕ) → Nodes → Option (ℕ × Nodes)
free_first fuel llist none h = none
free_first fuel llist (some none) h = some (0, h)
free_first fuel llist (some (some a)) h = free_from fuel llist (next_of (h a)) h

unfoldable pub free_linklist : ℕ → ℕ → Nodes → Option (ℕ × Nodes)
free_linklist fuel llist h = free_first fuel llist (next_of (h llist)) h
