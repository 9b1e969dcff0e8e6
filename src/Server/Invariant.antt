-- ===== src/Server/Invariant.antt =====
-- What holds of the server between two rounds, and how each step of a round keeps it.
use test.Base.{
  ℕ, suc, ◌+◌, ◌≡◌, ◌⊎◌, ◌∙◌, inl, inr, refl, sym, ap, true, false, Option, none, some, List, [],
  ◌∷◌, ◌++◌, ◌==◌, if◌then◌else◌, length, All, arith, Bool-cases,
}
use test.Base.Int.{ℤ, pos, eq_ℤ, minus_one}
use test.Server.{ClientSession, MyServer, blank, opened, place}
use test.Server.Round.{merged}

-- in use with an open descriptor
abbrev pub IsOpen : ClientSession → Type 0
IsOpen s = (s.b_use ≡ 1) × ((fd : ℕ) × (s.sock ≡ pos (suc fd)))

-- between rounds: free, or in use and active
abbrev pub IsSlot : ClientSession → Type 0
IsSlot s = (s ≡ blank) ⊎ (IsOpen s × (s.b_is_active ≡ pos 1))

-- in a round a session may be marked
abbrev pub IsServed : ClientSession → Type 0
IsServed s = (s ≡ blank) ⊎ (IsOpen s × ((s.b_is_active ≡ pos 1) ⊎ (s.b_is_active ≡ minus_one)))

-- Four sessions, and `clientNum` counts those that are used.
pub record IsValid (h : MyServer) : Type 0 where
  pub four : length h.client ≡ 4
  pub slots : All IsSlot h.client
  pub counted : h.client_num ≡ pos (length (merged h.client))

-- how often a descriptor stands in a list
abbrev pub count : ℤ → List ℤ → ℕ
count fd [] = 0
count fd (x ∷ xs) = (if eq_ℤ x fd then 1 else 0) + count fd xs

pub count-append : (fd : ℤ) (xs ys : List ℤ) → count fd (xs ++ ys) ≡ count fd xs + count fd ys
count-append fd [] ys = omega arith
count-append fd (x ∷ xs) ys = omega (arith, count-append fd xs ys)

pub merged-free :
    (s : ClientSession) (cs : List ClientSession)
    → (s.b_use == 0) ≡ true
    → merged (s ∷ cs) ≡ merged cs
merged-free s cs free = rw free refl

pub merged-used :
    (s : ClientSession) (cs : List ClientSession)
    → (s.b_use == 0) ≡ false
    → merged (s ∷ cs) ≡ s.sock ∷ merged cs
merged-used s cs used = rw used refl

-- What `place` does for a new connection: a free session becomes it, or all are used.
abbrev pub Placed : ℤ → List ClientSession → Option (List ClientSession) → Type 0
Placed fd cs none = length (merged cs) ≡ length cs
Placed fd cs (some cs') =
    (length cs' ≡ length cs)
    × (length (merged cs') ≡ suc (length (merged cs)))
    × ((x : ℤ) → count x (merged cs') ≡ count x (fd ∷ []) + count x (merged cs))
    × (All IsSlot cs → All IsSlot cs')

Placed-skip :
    (fd : ℤ) (c : ClientSession) (cs : List ClientSession) (o : Option (List ClientSession))
    → (c.b_use == 0) ≡ false
    → Placed fd cs o
    → Placed fd (c ∷ cs) (elim o [ none ↦ none | some cs' ↦ some (c ∷ cs') ])
Placed-skip fd c cs none used h = ap length (merged-used c cs used) ∙ ap suc h
Placed-skip fd c cs (some cs') used h =
    let before = merged-used c cs used in
    let after = merged-used c cs' used in
    (
      ap suc h.0,
      ap length after ∙ ap suc (h.1 ∙ ap length (sym before)),
      λ x. ap (count x) after ∙ omega (arith, h.2 x, ap (count x) before),
      λ slots. (slots.0, h.3 slots.1),
    )

pub place-Placed :
    (fd id : ℕ) (cs : List ClientSession)
    → Placed (pos (suc fd)) cs (place (opened (pos (suc fd)) id) cs)
unfolding place
place-Placed fd id [] = refl
place-Placed fd id (c ∷ cs) = elim (Bool-cases (c.b_use == 0)) [
  | inl free ↦
      let before = merged-free c cs free in
      rw free (
        refl,
        ap (λ t. suc (length t)) (sym before),
        λ x. omega (arith, ap (count x) before),
        λ slots. (inr ((refl, (fd, refl)), refl), slots.1),
      )
  | inr used ↦ rw used (Placed-skip (pos (suc fd)) c cs _ used (place-Placed fd id cs))
]
