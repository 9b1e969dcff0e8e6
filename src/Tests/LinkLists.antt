-- ===== src/Tests/LinkLists.antt =====
-- A list of two clients.
use test.Base.{◌≡◌, refl, none, some, false, List, [], ◌∷◌, arith}
use test.Base.Int.{pos}
use test.Tools.LinkList.{ClientInfo, ClientNode, Nodes, put, delete_node}
use test.Tools.LinkList.Chain.{Cell, IsList, without, first_hit, IsFreed}
use test.Tools.LinkList.Delete.{has_address, delete_node-IsList}
use test.Tools.LinkList.Add.{
  AddedTo, set_socket, with_client, add_client_list, add_client_list-AddedTo,
}

-- "1", "2" and "3" as addresses
abbrev one : ClientInfo
one = record { ipaddr = 49 ∷ []; socket_c = pos 5 }

abbrev two : ClientInfo
two = record { ipaddr = 50 ∷ []; socket_c = pos 6 }

abbrev memory : ClientNode
memory = record {
  node_info = record { ipaddr = []; socket_c = pos 0 };
  send_fail_n = 7;
  next = none;
}

abbrev nodes : Nodes
nodes =
    put
      (put (put (λ a. none) 10 (some (record memory { next = some 20 }))) 20
        (some (record { node_info = one; send_fail_n = 0; next = some 30 })))
      30 (some (record { node_info = two; send_fail_n = 0; next = none }))

abbrev cells : List Cell
cells = (20, one) ∷ (30, two) ∷ []

nodes-IsList : IsList nodes 10 cells
nodes-IsList = (
  (
    record memory { next = some 20 },
    refl,
    (
      refl,
      (
        record { node_info = one; send_fail_n = 0; next = some 30 },
        refl,
        refl,
        (refl, (record { node_info = two; send_fail_n = 0; next = none }, refl, refl, refl)),
      ),
    ),
  ),
  (λ e. omega (arith, e), (λ e. omega (arith, e), tt)),
  ((λ e. omega (arith, e), tt), (tt, tt)),
)

delete_node-IsList_example :
    (h' : Nodes) × (delete_node 2 10 (50 ∷ []) nodes ≡ some (10, h'))
    × IsList h' 10 (without (has_address (50 ∷ [])) cells)
    × IsFreed h' (first_hit (has_address (50 ∷ [])) cells)
delete_node-IsList_example =
    delete_node-IsList 2 nodes 10 (50 ∷ []) cells nodes-IsList (omega arith)

add_client_list-AddedTo_example :
    AddedTo 10
      (set_socket
        (50 ∷ [])
        (pos 9)
        (with_client 40 memory (50 ∷ []) cells (first_hit (has_address (50 ∷ [])) cells)))
      (add_client_list 3 (some (40, memory)) 10 (50 ∷ []) (pos 9) false nodes)
add_client_list-AddedTo_example =
    add_client_list-AddedTo 3 nodes 10 40 memory (50 ∷ []) (pos 9) cells nodes-IsList
      (refl, (refl, tt)) refl (omega arith) (omega arith)
