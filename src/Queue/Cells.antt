-- ===== src/Queue/Cells.antt =====
-- The items of a circular buffer: slots taken round and round, by two counters.
use native.Mathlib.Nat.{mod-add-mod, mod-eq_of_lt, mod-eq-sub-mod}
use test.Base.{
  ℕ, zero, suc, ◌+◌, ◌-◌, ◌%◌, ◌<◌, ◌≡◌, ◌≢◌, refl, ap, ap₂, ◌∙◌, sym, List, [], ◌∷◌, ◌++◌, length,
  arith, dec_lt,
}

module _ {ℓ} {A : Type ℓ} where
  -- the `n` items from counter `h` on; slot `i` holds `read i`
  abbrev pub cells : (ℕ → A) → ℕ → ℕ → ℕ → List A
  cells read cap h zero = []
  cells read cap h (suc n) = read (h % cap) ∷ cells read cap (h + 1) n

  pub length-cells : (read : ℕ → A) (cap h n : ℕ) → length (cells read cap h n) ≡ n
  length-cells read cap h zero = refl
  length-cells read cap h (suc n) = ap suc (length-cells read cap (h + 1) n)

-- Counters that are less than a round apart have different slots.
pub slot-ne : (cap h k : ℕ) → 0 < k → k < cap → (h + k) % cap ≢ h % cap
slot-ne cap h k low high =
    let r : ℕ = h % cap in
    let small : r < cap = omega arith in
    let e : (h + k) % cap ≡ (r + k) % cap = sym (mod-add-mod h cap k) in
    elim (dec_lt (r + k) cap) [
      | yes p ↦ omega (arith, mod-eq_of_lt p)
      | no p ↦ omega (
        arith,
        mod-eq-sub-mod {n = r + k} {m = cap} (omega arith),
        mod-eq_of_lt {n = r + k - cap} {m = cap} (omega arith),
      )
    ]

module _ {ℓ} {A : Type ℓ} (read read' : ℕ → A) (cap : ℕ) where
  -- A write to a slot outside the window leaves the window alone.
  -- A write to the slot behind the window makes the window longer by the item written.
  pub cells-push :
      (x : A) (n h : ℕ) (slot : ℕ)
      → n < cap
      → slot ≡ (h + n) % cap
      → read' slot ≡ x
      → ((i : ℕ) → i ≢ slot → read' i ≡ read i)
      → cells read' cap h (suc n) ≡ cells read cap h n ++ (x ∷ [])
  cells-push x zero h slot room e new old =
      let same : slot ≡ h % cap = e ∙ ap (λ k. k % cap) (omega arith) in
      ap (λ t. t ∷ []) (ap read' (sym same) ∙ new)
  cells-push x (suc n) h slot room e new old =
      let ne : h % cap ≢ slot = λ q. slot-ne cap h (suc n) (omega arith) room (sym e ∙ sym q) in
      ap₂ ◌∷◌ (old (h % cap) ne)
        (cells-push x n (h + 1) slot (omega arith) (e ∙ ap (λ k. k % cap) (omega arith)) new old)

module _ {ℓ} {A : Type ℓ} (read : ℕ → A) (cap : ℕ) where
  -- A window depends on its first counter only through the slot.
  pub cells_of_slot : (n h h' : ℕ) → h % cap ≡ h' % cap → cells read cap h n ≡ cells read cap h' n
  cells_of_slot zero h h' e = refl
  cells_of_slot (suc n) h h' e = ap₂ ◌∷◌ (ap read e) (
      cells_of_slot n (h + 1) (h' + 1)
        (sym (mod-add-mod h cap 1) ∙ ap (λ k. (k + 1) % cap) e ∙ mod-add-mod h' cap 1))
