-- ===== src/Programs/Receiver/Sets.antt =====
-- The start codes and the sequence parameter sets of a buffer, by the offsets themselves.
use test.Base.{
  ℕ, zero, suc, ◌+◌, ◌-◌, ◌≤◌, ◌<◌, ◌≡◌, ◌∙◌, refl, sym, ap, Bool, true, false, ◌&&◌, ◌||◌, List,
  ◌∷◌, ◌==◌, if◌then◌else◌, drop, arith, drop-drop, dec_lt,
}
use test.Nal.StartCode.{is_code_at}
use test.Nal.Parse.{type_at}
use test.Programs.Splitter.Pieces.{is_code_at-drop, is_code_at-IsCoded}
use test.Programs.Receiver.{count_start}

-- 1 for a sequence parameter set at the offset, else 0
abbrev pub set_at : List ℕ → ℕ → ℕ
set_at mem j = if is_code_at mem j && (type_at mem (j + 4) == 7) then 1 else 0

-- the number of sequence parameter sets at the `len` offsets from `lo` on
abbrev pub sets : List ℕ → ℕ → ℕ → ℕ
sets mem lo zero = 0
sets mem lo (suc len) = set_at mem lo + sets mem (lo + 1) len

-- a sequence or a picture parameter set
abbrev pub is_set : ℕ → Bool
is_set type = (type == 7) || (type == 8)

-- The last start code below `n` is at `k`.
abbrev pub IsLast : List ℕ → ℕ → ℕ → Type 0
IsLast mem n k =
    (k < n) × (is_code_at mem k ≡ true) × ((j : ℕ) → k < j → j < n → is_code_at mem j ≡ false)

-- a start code by what is dropped
pub code_shift :
    (i j : ℕ) (mem : List ℕ) → i ≤ j → is_code_at mem j ≡ is_code_at (drop i mem) (j - i)
code_shift i j mem low =
    is_code_at-drop j mem
    ∙ ap (λ t. is_code_at t 0) (sym (drop-drop i (j - i) j mem (omega arith)))
    ∙ sym (is_code_at-drop (j - i) (drop i mem))

-- Start codes do not overlap.
code_apart : (d : ℕ) (tail : List ℕ) → 0 < d → d < 4 → is_code_at (0 ∷ 0 ∷ 0 ∷ 1 ∷ tail) d ≡ false
unfolding is_code_at
code_apart zero tail low high = absurd (omega arith)
code_apart (suc zero) tail low high = refl
code_apart (suc (suc zero)) tail low high = refl
code_apart (suc (suc (suc zero))) tail low high = refl
code_apart (suc (suc (suc (suc d)))) tail low high = absurd (omega arith)

-- Between a start code and the first one that is found four bytes on, there is none.
pub none_between :
    (mem : List ℕ) (i k : ℕ)
    → is_code_at mem i ≡ true
    → ((j : ℕ) → 0 ≤ j → j < k → is_code_at (drop (i + 4) mem) j ≡ false)
    → (j : ℕ) → i < j
    → j < i + (4 + k)
    → is_code_at mem j ≡ false
none_between mem i k code first j low high = elim (dec_lt j (i + 4)) [
  | yes near ↦
      let at_i : is_code_at (drop i mem) 0 ≡ true = sym (is_code_at-drop i mem) ∙ code in
      let (tail, e) = is_code_at-IsCoded (drop i mem) at_i in
      code_shift i j mem (omega arith)
      ∙ ap (λ t. is_code_at t (j - i)) e
      ∙ code_apart (j - i) tail (omega arith) (omega (arith, near))
  | no far ↦
      code_shift (i + 4) j mem (omega (arith, far))
      ∙ first (j - (i + 4)) (omega arith) (omega (arith, far))
]

sets-none :
    (mem : List ℕ) (lo len : ℕ)
    → ((j : ℕ) → lo ≤ j → j < lo + len → is_code_at mem j ≡ false)
    → sets mem lo len ≡ 0
sets-none mem lo zero miss = refl
sets-none mem lo (suc len) miss =
    let rest = sets-none mem (lo + 1) len (λ j low high. miss j (omega arith) (omega arith)) in
    let here : is_code_at mem lo ≡ false = miss lo (omega arith) (omega arith) in
    rw here (omega (arith, rest))

sets-add : (mem : List ℕ) (lo a b : ℕ) → sets mem lo (a + b) ≡ sets mem lo a + sets mem (lo + a) b
sets-add mem lo zero b =
    let whole : 0 + b ≡ b = omega arith in
    let at_lo : lo + 0 ≡ lo = omega arith in
    let e1 : sets mem lo (0 + b) ≡ sets mem lo b = ap (λ t. sets mem lo t) whole in
    let e2 : sets mem (lo + 0) b ≡ sets mem lo b = ap (λ t. sets mem t b) at_lo in
    omega (arith, e1, e2)
sets-add mem lo (suc a) b =
    let rest = sets-add mem (lo + 1) a b in
    let e : lo + 1 + a ≡ lo + suc a = omega arith in
    let moved : sets mem (lo + 1 + a) b ≡ sets mem (lo + suc a) b = ap (λ t. sets mem t b) e in
    let split : suc a + b ≡ suc (a + b) = omega arith in
    ap (λ t. sets mem lo t) split ∙ omega (arith, rest, moved)

-- The offsets from `lo` up to `n`, when the first start code among them is at `next`.
pub sets-next :
    (mem : List ℕ) (lo next n : ℕ)
    → lo ≤ next
    → next < n
    → ((j : ℕ) → lo ≤ j → j < next → is_code_at mem j ≡ false)
    → sets mem lo (n - lo) ≡ set_at mem next + sets mem (next + 1) (n - (next + 1))
sets-next mem lo next n low high miss =
    let split : n - lo ≡ next - lo + suc (n - (next + 1)) = omega arith in
    let e : lo + (next - lo) ≡ next = omega arith in
    let before : sets mem lo (next - lo) ≡ 0 =
      sets-none mem lo (next - lo) (λ j from to. miss j from (omega arith)) in
    let after : ℕ = suc (n - (next + 1)) in
    let e1 : sets mem lo (n - lo) ≡ sets mem lo (next - lo + after) =
      ap (λ t. sets mem lo t) split in
    let e2 : sets mem (lo + (next - lo)) after ≡ sets mem next after =
      ap (λ t. sets mem t after) e in
    let parts = sets-add mem lo (next - lo) after in omega (arith, e1, e2, parts, before)

-- No start code is left.
pub sets-end :
    (mem : List ℕ) (lo n : ℕ)
    → ((j : ℕ) → lo ≤ j → j < n → is_code_at mem j ≡ false)
    → sets mem lo (n - lo) ≡ 0
sets-end mem lo n miss =
    sets-none mem lo (n - lo) (λ j low high. miss j low (omega (arith, low, high)))

-- The counter of the loop.
pub count_start-set :
    (mem : List ℕ) (j start : ℕ)
    → is_code_at mem j ≡ true
    → count_start mem j start ≡ start + set_at mem j
count_start-set mem j start code = rw code (by_type (type_at mem (j + 4) == 7))
  where
    by_type : (b : Bool) → (if b then start + 1 else start) ≡ start + (if b then 1 else 0)
    by_type true = refl
    by_type false = omega arith
