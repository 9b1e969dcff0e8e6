-- ===== src/Tools/LinkList/Add.antt =====
-- `add_client_list` of sample/send_h264file_rtp.c: a client comes into the list and gets a socket.
use test.Base.{
  ℕ, ◌<◌, ◌≤◌, ◌≡◌, ◌≢◌, refl, sym, subst, ap, ◌∙◌, Bool, true, false, Option, none, some, List, [],
  ◌∷◌, ◌==◌, inl, inr, if◌then◌else◌, length, Bool-cases, arith,
}
use test.Base.Int.{ℤ}
use test.Tools.LinkList.{
  ClientInfo, ClientNode, Nodes, put, Malloc, same_string, search_node, insert_nodulp_node,
}
use test.Tools.LinkList.Chain.{
  Cell, Chain, Apart, Distinct, IsList, put_ne, put_self, Chain-put, first_hit,
}
use test.Tools.LinkList.Delete.{has_address}
use test.Tools.LinkList.Search.{
  NoDuplicates, Inserted, search_node-first, insert_nodulp_node-NoDuplicates,
}

-- The function returned, the program ended since `connect` failed, or undefined behaviour.
pub data Added : Type 0 where
  added : Nodes → Added
  exits : Added
  add_fault : Added

-- the node gets its socket and is connected; `socket` returned `socket_c`
unfoldable pub connect_node : ℤ → Bool → ℕ → Option ClientNode → Nodes → Added
connect_node socket_c failed q none h = add_fault
connect_node socket_c failed q (some nd) h =
    if failed
    then exits
    else added (
        put h q (
          some (record nd {
            send_fail_n = 0;
            node_info = record nd.node_info { socket_c = socket_c };
          })))

-- what `search_node` found
unfoldable pub after_search : ℤ → Bool → Option (Option ℕ) → Nodes → Added
after_search socket_c failed none h = add_fault
after_search socket_c failed (some none) h = add_fault
after_search socket_c failed (some (some q)) h = connect_node socket_c failed q (h q) h

unfoldable pub after_insert : ℕ → ℕ → List ℕ → ℤ → Bool → Option (ℕ × Nodes) → Added
after_insert fuel llist ipaddr socket_c failed none = add_fault
after_insert fuel llist ipaddr socket_c failed (some (ret, h)) =
    after_search socket_c failed (search_node fuel llist ipaddr h) h

-- `add_client_list`, which is called with CLIENT_IP_LIST
unfoldable pub add_client_list : ℕ → Malloc → ℕ → List ℕ → ℤ → Bool → Nodes → Added
unfolding after_insert after_search connect_node
add_client_list fuel malloc llist ipaddr socket_c failed h =
    after_insert fuel llist ipaddr socket_c failed (insert_nodulp_node fuel malloc llist ipaddr h)

-- the clients when the first one with the address has got the socket
abbrev pub set_socket : List ℕ → ℤ → List Cell → List Cell
set_socket ipaddr s [] = []
set_socket ipaddr s ((a, x) ∷ cells) =
    if has_address ipaddr a x
    then (a, record x { socket_c = s }) ∷ cells
    else (a, x) ∷ set_socket ipaddr s cells

-- the clients after an insertion
abbrev pub with_client : ℕ → ClientNode → List ℕ → List Cell → Option ℕ → List Cell
with_client q raw ipaddr cells none = (q, record raw.node_info { ipaddr = ipaddr }) ∷ cells
with_client q raw ipaddr cells (some a) = cells

Apart-first_hit :
    (hit : ℕ → ClientInfo → Bool) (a q : ℕ) (cells : List Cell)
    → Apart a cells
    → first_hit hit cells ≡ some q
    → q ≢ a
Apart-first_hit hit a q [] far e = absurd (cc e)
Apart-first_hit hit a q ((b, x) ∷ cells) far e = elim (Bool-cases (hit b x)) [
  | inl yes_hit ↦
      λ same. far.0 (cc ((let f : some b ≡ some q = sym (rw yes_hit refl) ∙ e in f), same))
  | inr not_hit ↦ Apart-first_hit hit a q cells far.1 (sym (rw not_hit refl) ∙ e)
]

-- what the head of a list has to do with the first hit
head_hit :
    (hit : ℕ → ClientInfo → Bool) (a q : ℕ) (x : ClientInfo) (cells : List Cell)
    → hit a x ≡ true
    → first_hit hit ((a, x) ∷ cells) ≡ some q
    → q ≡ a
head_hit hit a q x cells hits e =
    let here : first_hit hit ((a, x) ∷ cells) ≡ some a = rw hits refl in cc (here, e)

tail_hit :
    (hit : ℕ → ClientInfo → Bool) (a q : ℕ) (x : ClientInfo) (cells : List Cell)
    → hit a x ≡ false
    → first_hit hit ((a, x) ∷ cells) ≡ some q
    → first_hit hit cells ≡ some q
tail_hit hit a q x cells misses e =
    let here : first_hit hit ((a, x) ∷ cells) ≡ first_hit hit cells = rw misses refl in sym here ∙ e

-- the node that the program sets
abbrev set_node : ℤ → ClientNode → ClientNode
set_node s nd = record nd { send_fail_n = 0; node_info = record nd.node_info { socket_c = s } }

-- The first node with the address is there, and a new socket in it makes the list with that socket.
Chain-set_socket :
    (h : Nodes) (ipaddr : List ℕ) (s : ℤ) (q : ℕ) (p : Option ℕ) (cells : List Cell)
    → Chain h p cells
    → Distinct cells
    → first_hit (has_address ipaddr) cells ≡ some q
    → (nd : ClientNode) × (h q ≡ some nd)
      × Chain (put h q (some (set_node s nd))) p (set_socket ipaddr s cells)
Chain-set_socket h ipaddr s q p [] chain apart e = absurd (cc e)
Chain-set_socket h ipaddr s q p ((a, x) ∷ cells) (to_a, (nd, at_a, info, chain)) apart e =
    elim (Bool-cases (has_address ipaddr a x)) [
      | inl hits ↦
          let here : q ≡ a = head_hit (has_address ipaddr) a q x cells hits e in
          let at_q : h q ≡ some nd = ap h here ∙ at_a in
          let h' : Nodes = put h q (some (set_node s nd)) in
          let far : Apart q cells = subst (λ b. Apart b cells) (sym here) apart.0 in
          (
            nd,
            at_q,
            rw hits (
              to_a,
              (
                set_node s nd,
                ap h' (sym here) ∙ put_self h q (some (set_node s nd)),
                ap (λ (i : ClientInfo). record i { socket_c = s }) info,
                Chain-put h q (some (set_node s nd)) nd.next cells far chain,
              ),
            ),
          )
      | inr misses ↦
          let later = tail_hit (has_address ipaddr) a q x cells misses e in
          let (nd', at_q, rest) = Chain-set_socket h ipaddr s q nd.next cells chain apart.1 later in
          let other : a ≢ q =
            λ same. Apart-first_hit (has_address ipaddr) a q cells apart.0 later (sym same) in
          (
            nd',
            at_q,
            rw misses (to_a, (nd, put_ne h q (some (set_node s nd')) a other ∙ at_a, info, rest)),
          )
    ]

-- Addresses stay where they are.
Apart-set_socket :
    (ipaddr : List ℕ) (s : ℤ) (b : ℕ) (cells : List Cell)
    → Apart b cells
    → Apart b (set_socket ipaddr s cells)
Apart-set_socket ipaddr s b [] far = tt
Apart-set_socket ipaddr s b ((a, x) ∷ cells) far = elim (Bool-cases (has_address ipaddr a x)) [
  | inl hits ↦ rw hits far
  | inr misses ↦ rw misses (far.0, Apart-set_socket ipaddr s b cells far.1)
]

Distinct-set_socket :
    (ipaddr : List ℕ) (s : ℤ) (cells : List Cell)
    → Distinct cells
    → Distinct (set_socket ipaddr s cells)
Distinct-set_socket ipaddr s [] d = tt
Distinct-set_socket ipaddr s ((a, x) ∷ cells) d = elim (Bool-cases (has_address ipaddr a x)) [
  | inl hits ↦ rw hits d
  | inr misses ↦
      rw misses (Apart-set_socket ipaddr s a cells d.0, Distinct-set_socket ipaddr s cells d.1)
]

first_hit-set_socket :
    (ipaddr other : List ℕ) (s : ℤ) (cells : List Cell)
    → first_hit (has_address other) (set_socket ipaddr s cells)
      ≡ first_hit (has_address other) cells
first_hit-set_socket ipaddr other s [] = refl
first_hit-set_socket ipaddr other s ((a, x) ∷ cells) = elim (Bool-cases (has_address ipaddr a x)) [
  | inl hits ↦ rw hits refl
  | inr misses ↦ rw misses (
      ap (λ (o : Option ℕ). if has_address other a x then some a else o)
        (first_hit-set_socket ipaddr other s cells))
]

NoDuplicates-set_socket :
    (ipaddr : List ℕ) (s : ℤ) (cells : List Cell)
    → NoDuplicates cells
    → NoDuplicates (set_socket ipaddr s cells)
NoDuplicates-set_socket ipaddr s [] d = tt
NoDuplicates-set_socket ipaddr s ((a, x) ∷ cells) d = elim (Bool-cases (has_address ipaddr a x)) [
  | inl hits ↦ rw hits d
  | inr misses ↦ rw misses (
    first_hit-set_socket ipaddr x.ipaddr s cells ∙ d.0,
    NoDuplicates-set_socket ipaddr s cells d.1,
  )
]

same_string_self : (xs : List ℕ) → same_string xs xs ≡ true
same_string_self [] = refl
same_string_self (x ∷ xs) = let same : x == x ≡ true = ground arith in rw same (same_string_self xs)

-- The search behind the insertion finds a client, and its node gets the socket.
after_search-IsList :
    (fuel : ℕ) (h : Nodes) (llist : ℕ) (ipaddr : List ℕ) (s : ℤ) (q : ℕ) (cells : List Cell)
    → IsList h llist cells
    → first_hit (has_address ipaddr) cells ≡ some q
    → length cells ≤ fuel
    → (h' : Nodes) × (after_search s false (search_node fuel llist ipaddr h) h ≡ added h')
      × IsList h' llist (set_socket ipaddr s cells)
unfolding after_search connect_node
after_search-IsList fuel h llist ipaddr s q cells ((front, at_l, chain), far, apart) found enough =
    let list : IsList h llist cells = ((front, at_l, chain), far, apart) in
    let (nd, at_q, after) = Chain-set_socket h ipaddr s q front.next cells chain apart found in
    let other : llist ≢ q =
      λ same. Apart-first_hit (has_address ipaddr) llist q cells far found (sym same) in
    (
      put h q (some (set_node s nd)),
      ap (λ o. after_search s false o h) (search_node-first fuel h llist ipaddr cells list enough)
          ∙ ap (λ o. after_search s false (some o) h) found
          ∙ ap (λ o. connect_node s false q o h) at_q,
      (
        (front, put_ne h q (some (set_node s nd)) llist other ∙ at_l, after),
        Apart-set_socket ipaddr s llist cells far,
        Distinct-set_socket ipaddr s cells apart,
      ),
    )

-- The function returned a list of these clients, without two equal addresses.
abbrev pub AddedTo : ℕ → List Cell → Added → Type 0
AddedTo llist cells add_fault = ⊥
AddedTo llist cells exits = ⊥
AddedTo llist cells (added h) = IsList h llist cells × NoDuplicates cells

with_client-first_hit :
    (q : ℕ) (raw : ClientNode) (ipaddr : List ℕ) (cells : List Cell) (o : Option ℕ)
    → first_hit (has_address ipaddr) cells ≡ o
    → (a : ℕ) × (first_hit (has_address ipaddr) (with_client q raw ipaddr cells o) ≡ some a)
with_client-first_hit q raw ipaddr cells none e =
    (q, let same = same_string_self ipaddr in rw same refl)
with_client-first_hit q raw ipaddr cells (some a) e = (a, e)

-- the insertion, in both cases
after_insert-AddedTo :
    (fuel : ℕ) (h : Nodes) (llist q : ℕ) (raw : ClientNode) (ipaddr : List ℕ) (s : ℤ)
    (cells : List Cell) (o : Option ℕ) (r : Option (ℕ × Nodes))
    → IsList h llist cells
    → NoDuplicates cells
    → length cells < fuel
    → first_hit (has_address ipaddr) cells ≡ o
    → Inserted q raw llist ipaddr cells h o r
    → AddedTo llist
        (set_socket ipaddr s (with_client q raw ipaddr cells o))
        (after_insert fuel llist ipaddr s false r)
unfolding after_insert
after_insert-AddedTo fuel h llist q raw ipaddr s cells none none list apart enough e i = absurd i
after_insert-AddedTo fuel h llist q raw ipaddr s cells (some a) none list apart enough e i =
    absurd i
after_insert-AddedTo fuel h llist q raw ipaddr s cells none (some (ret, h1)) list apart enough e
      (one, list1, apart1) =
    let (a, found) = with_client-first_hit q raw ipaddr cells none e in
    let (h', gives, after) =
      after_search-IsList fuel h1 llist ipaddr s a (with_client q raw ipaddr cells none) list1 found
        (omega (arith, enough)) in
    subst (AddedTo llist (set_socket ipaddr s (with_client q raw ipaddr cells none))) (sym gives)
      (after, NoDuplicates-set_socket ipaddr s (with_client q raw ipaddr cells none) apart1)
after_insert-AddedTo fuel h llist q raw ipaddr s cells (some a) (some (ret, h1)) list apart enough e
      (zero_ret, same) =
    let list1 : IsList h1 llist cells =
      subst (λ (g : Nodes). IsList g llist cells) (sym same) list in
    let (h', gives, after) =
      after_search-IsList fuel h1 llist ipaddr s a cells list1 e (omega (arith, enough)) in
    subst (AddedTo llist (set_socket ipaddr s cells)) (sym gives)
      (after, NoDuplicates-set_socket ipaddr s cells apart)

-- `add_client_list` of an address that fits its array, on a list without two equal addresses, when
-- `malloc` gives a free node and `connect` does not fail: it returns, and the list has the client with that
-- address and the new socket, at its begin if the address was not there; there are still no two equal
-- addresses.
pub add_client_list-AddedTo :
    (fuel : ℕ) (h : Nodes) (llist q : ℕ) (raw : ClientNode) (ipaddr : List ℕ) (socket_c : ℤ)
    (cells : List Cell)
    → IsList h llist cells
    → NoDuplicates cells
    → h q ≡ none
    → length ipaddr < 16
    → length cells < fuel
    → AddedTo llist
        (set_socket ipaddr socket_c
          (with_client q raw ipaddr cells (first_hit (has_address ipaddr) cells)))
        (add_client_list fuel (some (q, raw)) llist ipaddr socket_c false h)
unfolding add_client_list
add_client_list-AddedTo fuel h llist q raw ipaddr socket_c cells list apart fresh short enough =
    after_insert-AddedTo fuel h llist q raw ipaddr socket_c cells
      (first_hit (has_address ipaddr) cells) _ list apart enough refl
      (insert_nodulp_node-NoDuplicates fuel h llist q raw ipaddr cells list apart fresh short
        (omega (arith, enough)))
