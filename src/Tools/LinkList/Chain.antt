-- ===== src/Tools/LinkList/Chain.antt =====
-- What a list of clients holds.
use test.Base.{
  ℕ, ◌≡◌, ◌≢◌, refl, ap, ◌∙◌, Option, none, some, List, [], ◌∷◌, ◌==◌, inl, inr, true, All, Bool,
  if◌then◌else◌, Bool-cases, arith,
}
use test.Tools.LinkList.{ClientInfo, ClientNode, Nodes, put}

-- the node of a client, with what it says of it
abbrev pub Cell : Type 0
Cell = ℕ × ClientInfo

-- From `p` on the heap holds these nodes, in order, and then NULL.
abbrev pub Chain : Nodes → Option ℕ → List Cell → Type 0
Chain h p [] = p ≡ none
Chain h p ((a, x) ∷ cells) =
    (p ≡ some a)
    × ((nd : ClientNode) × (h a ≡ some nd) × (nd.node_info ≡ x) × Chain h nd.next cells)

-- No node of these is at `a`.
abbrev pub Apart : ℕ → List Cell → Type 0
Apart a cells = All (λ (c : Cell). c.0 ≢ a) cells

abbrev pub Distinct : List Cell → Type 0
Distinct [] = Unit
Distinct (c ∷ cells) = Apart c.0 cells × Distinct cells

-- behind the node at `p` there are these nodes
abbrev pub Behind : Nodes → ℕ → List Cell → Type 0
Behind h p cells = (nd : ClientNode) × (h p ≡ some nd) × Chain h nd.next cells

-- the list `llist` has these clients
abbrev pub IsList : Nodes → ℕ → List Cell → Type 0
IsList h llist cells = Behind h llist cells × Apart llist cells × Distinct cells

pub put_ne : (h : Nodes) (a : ℕ) (v : Option ClientNode) (b : ℕ) → b ≢ a → put h a v b ≡ h b
put_ne h a v b ne = elim (Bool-cases (b == a)) [
  | inl e ↦ absurd (ne (ground arith))
  | inr e ↦ rw e refl
]

pub put_self : (h : Nodes) (a : ℕ) (v : Option ClientNode) → put h a v a ≡ v
put_self h a v = let same : a == a ≡ true = ground arith in rw same refl

-- A change elsewhere keeps a chain.
pub Chain-put :
    (h : Nodes) (a : ℕ) (v : Option ClientNode) (p : Option ℕ) (cells : List Cell)
    → Apart a cells
    → Chain h p cells
    → Chain (put h a v) p cells
Chain-put h a v p [] far e = e
Chain-put h a v p ((b, x) ∷ cells) far (e, (nd, look, info, rest)) =
    (e, (nd, put_ne h a v b far.0 ∙ look, info, Chain-put h a v nd.next cells far.1 rest))

-- A node that is not allocated is none of a chain.
pub Chain-Apart :
    (h : Nodes) (q : ℕ) (p : Option ℕ) (cells : List Cell)
    → h q ≡ none
    → Chain h p cells
    → Apart q cells
Chain-Apart h q p [] fresh e = tt
Chain-Apart h q p ((a, x) ∷ cells) fresh (e, (nd, look, info, rest)) =
    (λ same. absurd (cc (look, ap h same, fresh)), Chain-Apart h q nd.next cells fresh rest)

-- the clients without the first one of which `hit` holds, that one's node, and the node before it
abbrev pub without : (ℕ → ClientInfo → Bool) → List Cell → List Cell
without hit [] = []
without hit ((a, x) ∷ cells) = if hit a x then cells else (a, x) ∷ without hit cells

abbrev pub first_hit : (ℕ → ClientInfo → Bool) → List Cell → Option ℕ
first_hit hit [] = none
first_hit hit ((a, x) ∷ cells) = if hit a x then some a else first_hit hit cells

abbrev pub before_hit : (ℕ → ClientInfo → Bool) → ℕ → List Cell → ℕ
before_hit hit p [] = p
before_hit hit p ((a, x) ∷ cells) = if hit a x then p else before_hit hit a cells

-- that node is free
abbrev pub IsFreed : Nodes → Option ℕ → Type 0
IsFreed h none = Unit
IsFreed h (some a) = h a ≡ none

pub Apart-without :
    (hit : ℕ → ClientInfo → Bool) (a : ℕ) (cells : List Cell)
    → Apart a cells
    → Apart a (without hit cells)
Apart-without hit a [] far = tt
Apart-without hit a ((b, x) ∷ cells) far = elim (Bool-cases (hit b x)) [
  | inl e ↦ rw e far.1
  | inr e ↦ rw e (far.0, Apart-without hit a cells far.1)
]

pub Distinct-without :
    (hit : ℕ → ClientInfo → Bool) (cells : List Cell)
    → Distinct cells
    → Distinct (without hit cells)
Distinct-without hit [] d = tt
Distinct-without hit ((b, x) ∷ cells) d = elim (Bool-cases (hit b x)) [
  | inl e ↦ rw e d.1
  | inr e ↦ rw e (Apart-without hit b cells d.0, Distinct-without hit cells d.1)
]
